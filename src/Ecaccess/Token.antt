-- ===== src/Ecaccess/Token.antt =====
-- The session token of the ECaccess client: what each operation does with it, and how often the
-- certificate is exchanged for one.
use hpc_relay.Base.{
  ℕ, suc, ◌+◌, ◌≤◌, ◌≡◌, refl, ◌⊎◌, inl, Bool, true, false, List, [], ◌∷◌, ◌++◌, Option, none, some,
  if◌then◌else◌, arith,
}
use hpc_relay.Ecaccess.Client.{
  Call, post, Response, Gateway, State, EcaccessClient, is_filled, recorded, asks, suppress, lift,
  read_reply, call, call_raw, upload_data, download_data, close_handle,
}
use hpc_relay.Ecaccess.Envelope.{Param}
use hpc_relay.Exec.Triple.{
  Ends, fine, broke, Does, Does-pure, Does-if, Does-raise, Does-bind, Does-then,
}
use hpc_relay.Exec.{Outcome, returns, raises, Exec, pure, raise, ◌>>=◌, ◌>>◌, handle}
use hpc_relay.Result.{Exc}
use hpc_relay.Text.{Text, codes, same}

-- The exchange of the certificate for a token.
unfoldable pub is_login : Call → Bool
unfolding same
is_login (post url method envelope) = same method (codes "getTokenFromCertificate")
is_login _ = false

unfoldable pub logins : List Call → ℕ
unfolding is_login
logins [] = 0
logins (call ∷ log) = let n = logins log in if is_login call then suc n else n

-- A token that is not empty.
unfoldable pub holds : Option Text → Bool
unfolding is_filled
holds none = false
holds (some t) = is_filled t

pub logins-append_one :
    (log : List Call) (call : Call)
    → logins (log ++ call ∷ []) ≡ (if is_login call then suc (logins log) else logins log)
unfolding logins
logins-append_one [] call = refl
logins-append_one (x ∷ log) call = ground (arith, logins-append_one log call)

-- In a session that began after `n` exchanges: a token is held, and there was one exchange at most.
pub record Held (n : ℕ) (s : State) : Type 0 where
  pub holding : holds s.token ≡ true
  pub once : logins s.log ≤ n + 1

-- One exchange at most.
pub record Within (n : ℕ) (s : State) : Type 0 where
  pub once : logins s.log ≤ n + 1

-- A token is held, or there was no exchange yet.
pub record Start (n : ℕ) (s : State) : Type 0 where
  pub once : logins s.log ≤ n + 1
  pub held_or_fresh : (holds s.token ≡ true) ⊎ (logins s.log ≤ n)

pub Held-Within : {n : ℕ} (s : State) → Held n s → Within n s
Held-Within s h = record { once = h.once }

pub Start-Within : {n : ℕ} (s : State) → Start n s → Within n s
Start-Within s h = record { once = h.once }

pub Held-Start : {n : ℕ} (s : State) → Held n s → Start n s
Held-Start s h = record { once = h.once; held_or_fresh = inl h.holding }

-- A predicate `P` on the state that a call keeps which is no exchange, and that implies `W`.
pub record Stable (W P : State → Type 0) : Type 0 where
  pub weak : (s : State) → P s → W s
  pub step : (s : State) (call : Call) → is_login call ≡ false → P s → P (recorded s call)

same_count :
    (log : List Call) (call : Call) → is_login call ≡ false → logins (log ++ call ∷ []) ≡ logins log
same_count log call other = rw (logins-append_one log call, other) refl

pub Held-Stable : {n : ℕ} → Stable (Within n) (Held n)
Held-Stable = record {
  weak = Held-Within;
  step = λ s call other h. record {
    holding = h.holding;
    once = rw (same_count s.log call other) h.once;
  };
}

pub Held-Kept : {n : ℕ} → Stable (Held n) (Held n)
Held-Kept = record { weak = λ s h. h; step = (Held-Stable).step }

pub Start-Stable : {n : ℕ} → Stable (Within n) (Start n)
Start-Stable = record {
  weak = Start-Within;
  step = λ s call other h. record {
    once = rw (same_count s.log call other) h.once;
    held_or_fresh = rw (same_count s.log call other) h.held_or_fresh;
  };
}

pub Within-Stable : {n : ℕ} → Stable (Within n) (Within n)
Within-Stable = record {
  weak = λ s h. h;
  step = λ s call other h. record { once = rw (same_count s.log call other) h.once };
}

-- An action that is suppressed does not end in an exception.
pub Does-suppress :
    {A : Type 0} {P E : State → Type 0} (m : Exec State A) → Does P P P m → Does P P E (suppress m)
Does-suppress {A} {P} {E} m d = record { at = λ s h. go (m s) (d.at s h) }
  where
    go : (o : Outcome A × State) → Ends P P o → Ends P E (handle o (λ _. pure tt) (λ _. pure tt))
    go _ (fine a s h) = fine tt s h
    go _ (broke e s h) = fine tt s h

-- Other methods than the exchange.
abbrev pub Other : Text → Type 0
Other method = same method (codes "getTokenFromCertificate") ≡ false

module _ {W P : State → Type 0} (st : Stable W P) where
  -- How an answer ends where `P` holds.
  Does-answer : {A : Type 0} (o : Outcome A) (s : State) → P s → Ends P W (o, s)
  Does-answer (returns a) s h = fine a s h
  Does-answer (raises e) s h = broke e s (st.weak s h)

  pub asks-Does :
      {A : Type 0} (answer : List Call → Outcome A) (call : Call)
      → is_login call ≡ false
      → Does P P W (asks answer call)
  asks-Does answer call other = record {
    at = λ s h. Does-answer (answer (s.log ++ call ∷ [])) _ (st.step s call other h);
  }

  pub lift-Does : {A : Type 0} (o : Outcome A) → Does P P W (lift o)
  lift-Does o = record { at = λ s h. Does-answer o s h }

  pub raise-Does : {A : Type 0} (e : Exc) → Does P P W (raise {A = A} e)
  raise-Does e = Does-raise e st.weak

  pub bind-Does :
      {A B : Type 0} (m : Exec State A) (f : A → Exec State B)
      → Does P P W m
      → ((a : A) → Does P P W (f a))
      → Does P P W (m >>= f)
  bind-Does m f dm df = Does-bind m f dm df

  pub then-Does :
      {A B : Type 0} (m : Exec State A) (k : Exec State B)
      → Does P P W m
      → Does P P W k
      → Does P P W (m >> k)
  then-Does m k dm dk = Does-then m k dm dk

  pub if-Does :
      {A : Type 0} (b : Bool) (m k : Exec State A)
      → Does P P W m
      → Does P P W k
      → Does P P W (if b then m else k)
  if-Does b m k dm dk = Does-if b m k dm dk

  pub pure-Does : {A : Type 0} (a : A) → Does P P W (pure a)
  pure-Does a = Does-pure a

  module _ (g : Gateway) (c : EcaccessClient) where
    pub read_reply-Does :
        (method : Text) (resp : Response) → Does P P W (read_reply g c method resp)
    unfolding read_reply
    read_reply-Does method resp = search (bind-Does, lift-Does)

    pub call-Does :
        (method : Text) (params : List Param) → Other method → Does P P W (call g c method params)
    unfolding call is_login
    call-Does method params other = search (bind-Does, asks-Does, read_reply-Does, other)

    pub call_raw-Does :
        (method envelope : Text) → Other method → Does P P W (call_raw g c method envelope)
    unfolding call_raw is_login
    call_raw-Does method envelope other = search (bind-Does, asks-Does, read_reply-Does, other)

    pub upload_data-Does : (handle content : Text) → Does P P W (upload_data g c handle content)
    unfolding upload_data is_login
    upload_data-Does handle content = search (bind-Does, asks-Does, if-Does, pure-Does, raise-Does)

    pub download_data-Does : (handle : Text) → Does P P W (download_data g c handle)
    unfolding download_data is_login
    download_data-Does handle = search (bind-Does, asks-Does, if-Does, pure-Does, raise-Does)

    pub close_handle-Does : (handle : Text) → Does P P W (close_handle g c handle)
    unfolding close_handle same
    close_handle-Does handle = search (then-Does, call-Does, pure-Does)
