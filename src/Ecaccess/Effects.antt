-- ===== src/Ecaccess/Effects.antt =====
-- What single operations of the client do to its state.
use hpc_relay.Base.{
  ◌≡◌, refl, inl, inr, Bool, true, false, List, [], ◌∷◌, ◌++◌, Option, none, some, leb,
  if◌then◌else◌, Bool-cases,
}
use hpc_relay.Ecaccess.Client.{
  Response, post, Gateway, State, EcaccessClient, is_filled, recorded, download, upload, call_raw,
  upload_data, download_data, close_handle, dataios_url, upload_body, suppress, call, read_reply,
  release_held, release_token, ctrl_url,
}
use hpc_relay.Ecaccess.Encode.{percent_quote}
use hpc_relay.Ecaccess.Envelope.{Param, soap_envelope}
use hpc_relay.Exec.{Outcome, returns, raises, Exec, pure, handle, and_then}
use hpc_relay.Text.{Text, codes}

-- The state once the token is given back: the gateway is told, if there was a token.
unfoldable pub released : Gateway → EcaccessClient → Option Text → State → State
unfolding is_filled soap_envelope
released g c none s = s
released g c (some t) s =
    if is_filled t
    then record {
      token = none;
      log =
          s.log
          ++ post (ctrl_url g c) (codes "releaseToken")
              (soap_envelope (codes "releaseToken") ((codes "token", t, none) ∷ []))
            ∷ [];
    }
    else s

-- An answer that the rest only reads.
pub and_then-state :
    {A B : Type 0} (o : Outcome A) (s : State) (f : A → Exec State B)
    → ((a : A) → (f a s).1 ≡ s)
    → (and_then (o, s) f).1 ≡ s
and_then-state (returns a) s f h = h a
and_then-state (raises e) s f h = refl

module _ (g : Gateway) (c : EcaccessClient) where
  pub read_reply-state :
      (method : Text) (resp : Response) (s : State) → (read_reply g c method resp s).1 ≡ s
  unfolding read_reply
  read_reply-state method resp s = and_then-state (g.from_string resp.content) s _ (λ root. refl)

  -- `_call` makes one request, and changes nothing else.
  pub call-state :
      (method : Text) (params : List Param) (s : State)
      → (call g c method params s).1
        ≡ recorded s (post (ctrl_url g c) method (soap_envelope method params))
  unfolding call
  call-state method params s =
      and_then-state (g.response _) _ (read_reply g c method)
        (λ resp. read_reply-state method resp _)

  pub call_raw-state :
      (method envelope : Text) (s : State)
      → (call_raw g c method envelope s).1 ≡ recorded s (post (ctrl_url g c) method envelope)
  unfolding call_raw
  call_raw-state method envelope s =
      and_then-state (g.response _) _ (read_reply g c method)
        (λ resp. read_reply-state method resp _)

  if-state :
      {A : Type 0} (b : Bool) (m n : Exec State A) (s : State)
      → (m s).1 ≡ s
      → (n s).1 ≡ s
      → ((if b then m else n) s).1 ≡ s
  if-state true m n s p q = p
  if-state false m n s p q = q

  pub upload_data-state :
      (handle content : Text) (s : State)
      → (upload_data g c handle content s).1
        ≡ recorded s (upload (dataios_url g c) (upload_body g c handle content))
  unfolding upload_data
  upload_data-state handle content s =
      and_then-state (g.response _) _ _
        (λ resp. if-state (leb 400 resp.status_code) _ _ _ refl refl)

  pub download_data-state :
      (handle : Text) (s : State)
      → (download_data g c handle s).1
        ≡ recorded s (download (dataios_url g c ++ (codes "?handle=" ++ percent_quote handle)))
  unfolding download_data
  download_data-state handle s =
      and_then-state (g.response _) _ _
        (λ resp. if-state (leb 400 resp.status_code) _ _ _ refl refl)

  -- A request whose reply is dropped.
  dropped-state :
      {A : Type 0} (o : Outcome A × State) (t : State) → o.1 ≡ t → (and_then o (λ _. pure tt)).1 ≡ t
  dropped-state (returns a, u) t e = e
  dropped-state (raises x, u) t e = e

  pub close_handle-state :
      (handle : Text) (s : State)
      → (close_handle g c handle s).1
        ≡ recorded s (
            post
              (ctrl_url g c)
              (codes "closeHandle")
              (soap_envelope (codes "closeHandle") ((codes "handle", handle, none) ∷ [])))
  unfolding close_handle
  close_handle-state handle s =
      let params : List Param = (codes "handle", handle, none) ∷ [] in
      dropped-state (call g c (codes "closeHandle") params s) _ (call-state _ params s)

  pub suppress-eq :
      {A : Type 0} (m : Exec State A) (s : State) → suppress m s ≡ (returns tt, (m s).1)
  suppress-eq {A} m s = go (m s)
    where
      go : (o : Outcome A × State) → handle o (λ _. pure tt) (λ _. pure tt) ≡ (returns tt, o.1)
      go (returns a, s) = refl
      go (raises e, s) = refl

  -- `release_token` returns whatever the gateway answers, and tells it exactly once of a token that is
  -- held.
  pub release_token-released :
      (s : State) → release_token g c s ≡ (returns tt, released g c s.token s)
  unfolding release_token released
  release_token-released s = go s s.token
    where
      go : (s : State) (t : Option Text) → release_held g c t s ≡ (returns tt, released g c t s)
      go s none = refl
      go s (some t) = elim (Bool-cases (is_filled t)) [
        | inl y ↦ rw (y, suppress-eq (call g c _ _) s, call-state _ _ s) refl
        | inr z ↦ rw z refl
      ]
