-- ===== src/Unicore/Drain.antt =====
-- That the parts that `_drain_stdout` collects are the output as far as it was read.
use hpc_relay.Base.{
  ℕ, ◌≡◌, refl, sym, ap, ◌∙◌, true, false, List, [], ◌∷◌, ◌++◌, arith, append_assoc, append-nil,
  length, length-append, ltb,
}
use hpc_relay.Text.{Text}
use hpc_relay.Text.Layout.{drop}
use hpc_relay.Unicore.{Drained, undrained, joined, take_new}

-- The drains of successive contents.
unfoldable pub drain_all : Drained → List Text → Drained
drain_all d [] = d
drain_all d (content ∷ contents) = drain_all (take_new d content) contents

-- Each content goes on where the one before it ended, `so_far` being the first.
pub data Grows : Text → List Text → Text → Type 0 where
  stays : {so_far last : Text} → so_far ≡ last → Grows so_far [] last
  grows :
      (more : Text) {so_far content : Text} {contents : List Text} {last : Text}
      → content ≡ so_far ++ more
      → Grows content contents last
      → Grows so_far (content ∷ contents) last

-- The parts are this text.
record Holds (d : Drained) (t : Text) : Type 0 where
  parts_are : joined d.parts ≡ t
  offset_is : d.offset ≡ length t

joined-append_one : (parts : List Text) (t : Text) → joined (parts ++ t ∷ []) ≡ joined parts ++ t
unfolding joined
joined-append_one [] t = append-nil t
joined-append_one (p ∷ parts) t = rw (joined-append_one parts t) (sym (append_assoc p _ t))

drop-append : (s t : Text) → drop (length s) (s ++ t) ≡ t
unfolding drop
drop-append [] t = refl
drop-append (c ∷ s) t = drop-append s t

not_longer : (n k : ℕ) → k ≡ n → ltb k n ≡ false
not_longer n k e = ground arith

take_new-Holds :
    (d : Drained) (t more : Text) → Holds d t → Holds (take_new d (t ++ more)) (t ++ more)
unfolding take_new
take_new-Holds d t [] h = rw (append-nil t, not_longer (length t) d.offset h.offset_is) h
take_new-Holds d t (c ∷ more) h =
    let longer : ltb d.offset (length (t ++ (c ∷ more))) ≡ true =
      ground (arith, length-append t (c ∷ more), h.offset_is) in
    rw longer (record {
      parts_are =
          joined-append_one d.parts _
          ∙ rw (h.parts_are, h.offset_is) (ap (λ u. t ++ u) (drop-append t (c ∷ more)));
      offset_is = refl;
    })

drain_all-Holds :
    (d : Drained) (t : Text) (contents : List Text) (last : Text)
    → Holds d t
    → Grows t contents last
    → Holds (drain_all d contents) last
unfolding drain_all
drain_all-Holds d t [] last h (stays e) = rw (← e) h
drain_all-Holds d t (content ∷ contents) last h (grows more e g) =
    drain_all-Holds (take_new d content) content contents last (rw e (take_new-Holds d t more h)) g

empty : Holds undrained []
unfolding joined
empty = record { parts_are = refl; offset_is = refl }

-- Where the output only grows between the reads, what has been collected is the content last read: no
-- part of it is lost, and none comes twice.
pub joined-drain_all :
    (contents : List Text) (last : Text)
    → Grows [] contents last
    → joined (drain_all undrained contents).parts ≡ last
joined-drain_all contents last g = (drain_all-Holds undrained [] contents last empty g).parts_are
