-- ===== src/Shell/Tests.antt =====
-- Runs of the quoting and of the reader.
use hpc_relay.Shell.Chars.{is_safe}
use hpc_relay.Base.{◌≡◌, refl, List, [], ◌∷◌, some}
use hpc_relay.Shell.HomePath.{PathReads, tokens-quote_path}
use hpc_relay.Shell.Quote.{
  join, quote_path, join_spaces, quote, quote_all, quote_tilde, split_login,
}
use hpc_relay.Shell.Reader.{ShellWord, tokens, word}
use hpc_relay.Shell.RoundTrip.{words, tokens-join}
use hpc_relay.Text.{Text, codes}

abbrev echo_its : List Text
echo_its = codes "echo" ∷ codes "it's; $HOME" ∷ [] ∷ []

join-echo_its : join echo_its ≡ codes "echo 'it'\"'\"'s; $HOME' ''"
unfolding join join_spaces quote_all quote is_safe
join-echo_its = refl

quote_path_home : quote_path (codes "~/my runs") ≡ codes "~/'my runs'"
unfolding quote_path quote_tilde split_login quote is_safe
quote_path_home = refl

tokens-join_example : tokens (join echo_its) ≡ some (words echo_its)
tokens-join_example = tokens-join echo_its

tokens-quote_path_example :
    (w : ShellWord) × PathReads (codes "~/my runs") w
    × (tokens (quote_path (codes "~/my runs")) ≡ some (word w ∷ []))
tokens-quote_path_example = tokens-quote_path (codes "~/my runs")
