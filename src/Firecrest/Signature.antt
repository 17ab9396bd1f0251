-- ===== src/Firecrest/Signature.antt =====
-- What the signature of the credentials is made of: the files as they are read.
use hpc_relay.Base.{
  ◌≡◌, refl, ap, Bool, true, false, List, [], ◌∷◌, ◌++◌, Option, none, some, if◌then◌else◌, arith,
}
use mathlib.Core.Path.{subst}
use hpc_relay.Exec.{Outcome, returns, raises, Exec, pure, and_then, ◌>>=◌}
use hpc_relay.FilePath.{StrOrPath, FilePath, path_of}
use hpc_relay.Firecrest.{is_file, read_bytes, Api, State, asks, hash_file, credential_signature}
use hpc_relay.Result.{Exc}
use hpc_relay.Runner.Context.{CscsFirecrestContext}
use hpc_relay.Text.{Text}

-- A chain that returns has returned at its first step.
returned :
    {A B : Type 0} (o : Outcome A × State) (f : A → Exec State B) (b : B) (t : State)
    → and_then o f ≡ (returns b, t)
    → (a : A) × (u : State) × (o ≡ (returns a, u)) × (f a u ≡ (returns b, t))
returned (returns a, u) f b t h = (a, u, refl, h)
returned (raises e, u) f b t h = absurd (ground arith)

module _ (api : Api) (expanduser : FilePath → Outcome FilePath) (sha256 : Text → Text) where
  -- The hash of the file at a path, if there is a path and a file there.
  pub data HashOf (s : State) : Option StrOrPath → Option Text → State → Type 0 where
    no_path : HashOf s none none s
    no_file :
        (p : StrOrPath) (resolved : FilePath)
        → expanduser (path_of p) ≡ returns resolved
        → api.flag (s.log ++ is_file resolved ∷ []) ≡ returns false
        → HashOf s (some p) none (record s { log = s.log ++ is_file resolved ∷ [] })
    hashed :
        (p : StrOrPath) (resolved : FilePath) (raw : Text)
        → expanduser (path_of p) ≡ returns resolved
        → api.flag (s.log ++ is_file resolved ∷ []) ≡ returns true
        → api.content ((s.log ++ is_file resolved ∷ []) ++ read_bytes resolved ∷ []) ≡ returns raw
        → HashOf s
            (some p)
            (some (sha256 raw))
            (record s { log = (s.log ++ is_file resolved ∷ []) ++ read_bytes resolved ∷ [] })

  -- The signature read from the state `s` to the state `t`: the hashes of the consumer key, of the
  -- consumer secret and of the token, in this order.
  pub record SignatureOf (ctx : CscsFirecrestContext) (s : State) (sig : List (Option Text))
      (t : State) : Type 0 where
    pub key : Option Text
    pub secret : Option Text
    pub token : Option Text
    pub after_key : State
    pub after_secret : State
    pub key_is : HashOf s ctx.consumer_key_path key after_key
    pub secret_is : HashOf after_key ctx.consumer_secret_path secret after_secret
    pub token_is : HashOf after_secret ctx.api_token_path token t
    pub signature_is : sig ≡ key ∷ secret ∷ token ∷ []

  data Hashes (s : State) (p : Option StrOrPath) : Outcome (Option Text) × State → Type 0 where
    hash : (x : Option Text) (t : State) → HashOf s p x t → Hashes s p (returns x, t)
    failed : (e : Exc) (t : State) → Hashes s p (raises e, t)

  hash_file-Hashes :
      (s : State) (p : Option StrOrPath) → Hashes s p (hash_file api expanduser sha256 p s)
  unfolding hash_file
  hash_file-Hashes s none = hash none s no_path
  hash_file-Hashes s (some p) = resolve (expanduser (path_of p)) refl
    where
      read :
          (resolved : FilePath)
          → expanduser (path_of p) ≡ returns resolved
          → api.flag (s.log ++ is_file resolved ∷ []) ≡ returns true
          → (o : Outcome Text)
          → api.content ((s.log ++ is_file resolved ∷ []) ++ read_bytes resolved ∷ []) ≡ o
          → Hashes s (some p) (
              and_then
                (o, record s { log = (s.log ++ is_file resolved ∷ []) ++ read_bytes resolved ∷ [] })
                (λ raw. pure (some (sha256 raw))))
      read resolved e f (returns raw) h = hash _ _ (hashed p resolved raw e f h)
      read resolved e f (raises x) h = failed x _

      look :
          (resolved : FilePath)
          → expanduser (path_of p) ≡ returns resolved
          → (o : Outcome Bool) → api.flag (s.log ++ is_file resolved ∷ []) ≡ o
          → Hashes s (some p) (
              and_then
                (o, record s { log = s.log ++ is_file resolved ∷ [] })
                (λ found.
                  if found
                  then (asks api.content (read_bytes resolved) >>= λ raw. pure (some (sha256 raw)))
                  else pure none))
      look resolved e (returns true) f = read resolved e f _ refl
      look resolved e (returns false) f = hash none _ (no_file p resolved e f)
      look resolved e (raises x) f = failed x _

      resolve :
          (o : Outcome FilePath)
          → expanduser (path_of p) ≡ o
          → Hashes s (some p) (
              and_then
                (o, s)
                (λ resolved. asks api.flag (is_file resolved) >>= λ found.
                  (if found
                    then (asks api.content (read_bytes resolved) >>= λ raw.
                        pure (some (sha256 raw)))
                    else pure none)))
      resolve (returns resolved) e = look resolved e _ refl
      resolve (raises x) e = failed x s

  hash_file-HashOf :
      (s t : State) (p : Option StrOrPath) (x : Option Text)
      → hash_file api expanduser sha256 p s ≡ (returns x, t)
      → HashOf s p x t
  hash_file-HashOf s t p x h = go (subst (Hashes s p) h (hash_file-Hashes s p))
    where
      go : Hashes s p (returns x, t) → HashOf s p x t
      go (hash y u k) = k

  pub credential_signature-SignatureOf :
      (ctx : CscsFirecrestContext) (s t : State) (sig : List (Option Text))
      → credential_signature api expanduser sha256 ctx s ≡ (returns sig, t)
      → SignatureOf ctx s sig t
  unfolding credential_signature
  credential_signature-SignatureOf ctx s t sig h =
      let (a, u, ha, h2) = returned _ _ sig t h in
      let (b, v, hb, h3) = returned _ _ sig t h2 in
      let (c, w, hc, h4) = returned _ _ sig t h3 in
      record {
        key = a;
        secret = b;
        token = c;
        after_key = u;
        after_secret = v;
        key_is = hash_file-HashOf s u ctx.consumer_key_path a ha;
        secret_is = hash_file-HashOf u v ctx.consumer_secret_path b hb;
        token_is =
            subst (HashOf v ctx.api_token_path c) (ap (λ o. o.1) h4)
              (hash_file-HashOf v w ctx.api_token_path c hc);
        signature_is = ground arith;
      }
