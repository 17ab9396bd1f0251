-- ===== src/Firecrest/Refreshed.antt =====
-- The client after `_refresh_client_if_credentials_changed`.
use hpc_relay.Base.{◌≡◌, refl, ap, true, false, List, Option, none, some, Bool-cases, inl, inr}
use hpc_relay.Exec.Keeps.{Keeps, Keeps-pure, Keeps-raise, Keeps-if, Keeps-bind}
use hpc_relay.Exec.{Outcome, returns, raises, and_then}
use hpc_relay.FilePath.{StrOrPath, FilePath}
use hpc_relay.Firecrest.{
  Client, Call, Api, State, asks, set_client, same_signature, Source, value, file, nowhere, both,
  source_of, hash_file, credential_signature, read_secret, secret_from, resolve_secret, bearer_of,
  authorize, build_authorization, build_client, rebuild, compare_signature, refresh_client,
}
use hpc_relay.Firecrest.Signature.{SignatureOf, credential_signature-SignatureOf}
use hpc_relay.FilePath.{given_text, given_path}
use hpc_relay.Result.{Exc}
use hpc_relay.Runner.Context.{CscsFirecrestContext}
use hpc_relay.Text.{Text}

-- The signature and the client are these.
record Has (sig : List (Option Text)) (client : Client) (s : State) : Type 0 where
  signature_is : s.signature ≡ sig
  client_is : s.client ≡ client

-- How a refresh of a state ends. The credentials could not be read, and nothing changed; or they are
-- those of the signature, and the client stays; or they are others, the signature is theirs, and so is
-- the client, or it could not be built and the client is still the old one.
pub data RefreshEnd (api : Api) (expanduser : FilePath → Outcome FilePath) (sha256 : Text → Text)
    (ctx : CscsFirecrestContext) (s : State) : Outcome (Unit {0}) × State → Type 0 where
  unread :
      (e : Exc) (t : State)
      → credential_signature api expanduser sha256 ctx s ≡ (raises e, t)
      → t.signature ≡ s.signature
      → t.client ≡ s.client
      → RefreshEnd api expanduser sha256 ctx s (raises e, t)
  unchanged :
      (sig : List (Option Text)) (t : State)
      → SignatureOf api expanduser sha256 ctx s sig t
      → same_signature sig s.signature ≡ true
      → t.signature ≡ s.signature
      → t.client ≡ s.client
      → RefreshEnd api expanduser sha256 ctx s (returns tt, t)
  rebuilt :
      (sig : List (Option Text)) (u t : State)
      → SignatureOf api expanduser sha256 ctx s sig u
      → same_signature sig s.signature ≡ false
      → (build_client api expanduser sha256 ctx (record u { signature = sig })).0 ≡ returns t.client
      → t.signature ≡ sig
      → RefreshEnd api expanduser sha256 ctx s (returns tt, t)
  stale :
      (e : Exc) (sig : List (Option Text)) (u t : State)
      → SignatureOf api expanduser sha256 ctx s sig u
      → same_signature sig s.signature ≡ false
      → build_client api expanduser sha256 ctx (record u { signature = sig }) ≡ (raises e, t)
      → t.signature ≡ sig
      → t.client ≡ s.client
      → RefreshEnd api expanduser sha256 ctx s (raises e, t)

module _ (api : Api) (expanduser : FilePath → Outcome FilePath) (sha256 : Text → Text)
    (ctx : CscsFirecrestContext) where
  module _ {sig : List (Option Text)} {client : Client} where
    asks-Keeps :
        {A : Type 0} (answer : List Call → Outcome A) (k : Call)
        → Keeps (Has sig client) (asks answer k)
    asks-Keeps answer k = record {
      at = λ s h. record { signature_is = h.signature_is; client_is = h.client_is };
    }

    lift-Keeps : {A : Type 0} (o : Outcome A) → Keeps (Has sig client) (λ s. (o, s))
    lift-Keeps o = record { at = λ s h. h }

    hash-Keeps : (p : Option StrOrPath) → Keeps (Has sig client) (hash_file api expanduser sha256 p)
    unfolding hash_file
    hash-Keeps none = Keeps-pure none
    hash-Keeps (some p) = search (Keeps-bind, Keeps-if, Keeps-pure, asks-Keeps, lift-Keeps)

    signature-Keeps : Keeps (Has sig client) (credential_signature api expanduser sha256 ctx)
    unfolding credential_signature
    signature-Keeps = search (Keeps-bind, Keeps-pure, hash-Keeps)

    secret-Keeps :
        (source : Source) → Keeps (Has sig client) (secret_from api expanduser sha256 source)
    unfolding secret_from read_secret
    secret-Keeps both = Keeps-raise _
    secret-Keeps (value v) = Keeps-pure (some v)
    secret-Keeps (file p) =
        search (Keeps-bind, Keeps-if, Keeps-pure, Keeps-raise, asks-Keeps, lift-Keeps)
    secret-Keeps nowhere = Keeps-pure none

    resolve-Keeps :
        (v : Option Text) (p : Option StrOrPath)
        → Keeps (Has sig client) (resolve_secret api expanduser sha256 v p)
    unfolding resolve_secret
    resolve-Keeps v p = secret-Keeps (source_of (given_text v) (given_path p))

    bearer-Keeps : (t : Option Text) → Keeps (Has sig client) (bearer_of api expanduser sha256 t)
    unfolding bearer_of
    bearer-Keeps none = Keeps-raise _
    bearer-Keeps (some t) = Keeps-pure _

    authorize-Keeps :
        (key secret : Option Text)
        → Keeps (Has sig client) (authorize api expanduser sha256 ctx key secret)
    unfolding authorize
    authorize-Keeps (some key) (some secret) = Keeps-pure _
    authorize-Keeps none none = search (Keeps-bind, resolve-Keeps, bearer-Keeps)
    authorize-Keeps (some key) none = Keeps-raise _
    authorize-Keeps none (some secret) = Keeps-raise _

    build-Keeps : Keeps (Has sig client) (build_client api expanduser sha256 ctx)
    unfolding build_client build_authorization
    build-Keeps = search (Keeps-bind, Keeps-pure, resolve-Keeps, authorize-Keeps)

  rebuild-RefreshEnd :
      (s t : State) (sig : List (Option Text))
      → Has s.signature s.client t
      → SignatureOf api expanduser sha256 ctx s sig t
      → same_signature sig s.signature ≡ false
      → RefreshEnd api expanduser sha256 ctx s (rebuild api expanduser sha256 ctx sig t)
  unfolding rebuild
  rebuild-RefreshEnd s t sig h read other =
      go (build_client api expanduser sha256 ctx u) refl
        (build-Keeps.at u (record { signature_is = refl; client_is = h.client_is }))
    where
      u : State
      u = record t { signature = sig }

      go :
          (o : Outcome Client × State)
          → (build_client api expanduser sha256 ctx u) ≡ o
          → Has sig s.client o.1
          → RefreshEnd api expanduser sha256 ctx s (and_then o set_client)
      go (returns c, v) e k = rebuilt sig t _ read other (ap (λ q. q.0) e) k.signature_is
      go (raises x, v) e k = stale x sig t v read other e k.signature_is k.client_is

  -- The refresh of the client raises what the reading of the credential files raises, with the signature
  -- and the client as they were; or it reads the signature, which is made of the hash of each of the three
  -- files, or of nothing for one that is not given or not there. Where that is the stored signature, it
  -- keeps both; any other it stores, and the client is the one built behind it, or, where the building
  -- raises, still the old one.
  pub refresh_client-RefreshEnd :
      (s : State)
      → RefreshEnd api expanduser sha256 ctx s (refresh_client api expanduser sha256 ctx s)
  unfolding refresh_client compare_signature
  refresh_client-RefreshEnd s =
      go (credential_signature api expanduser sha256 ctx s) refl
        (signature-Keeps.at s (record { signature_is = refl; client_is = refl }))
    where
      go :
          (o : Outcome (List (Option Text)) × State)
          → credential_signature api expanduser sha256 ctx s ≡ o
          → Has s.signature s.client o.1
          → RefreshEnd api expanduser sha256 ctx s
              (and_then o (compare_signature api expanduser sha256 ctx))
      go (raises e, t) q h = unread e t q h.signature_is h.client_is
      go (returns sig, t) q h = elim (Bool-cases (same_signature sig t.signature)) [
        | inl y ↦ rw y (
            unchanged sig t (credential_signature-SignatureOf api expanduser sha256 ctx s t sig q)
              (rw (← h.signature_is) y) h.signature_is h.client_is)
        | inr z ↦ rw z (
            rebuild-RefreshEnd s t sig h
              (credential_signature-SignatureOf api expanduser sha256 ctx s t sig q)
              (rw (← h.signature_is) z))
      ]
