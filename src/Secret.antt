-- ===== src/Secret.antt =====
-- secret_runtime.go and provider.go: where the secret of a generator comes from. Code outside the
-- library (a provider) acts on a world `W` of the caller's choosing.
use genotp_go.Base.{
  ℕ, zero, suc, ◌+◌, Bool, true, false, ◌||◌, not, [], Bytes, length, set, ltb, ◌==◌, if◌then◌else◌,
  Option, none, some,
}
use genotp_go.Errors.{
  Error, Result, ok, err, panic, join, invalid_secret, secret_provider, hmac_provider,
}
use genotp_go.Algorithm.{Algorithm, HashFn, Hmac, expected_hmac_size}

-- A call that may act on the world.
abbrev pub Action {ℓ} : Type 0 → Type ℓ → Type ℓ
Action W A = W → Result A × W

infixl 5 ◌>>=◌
abbrev pub ◌>>=◌ {ℓ κ} :
    {W : Type 0} {A : Type ℓ} {B : Type κ} → Action W A → (A → Action W B) → Action W B
◌>>=◌ m f w =
    let (r, w') = m w in elim r [ ok a ↦ f a w' | err e ↦ (err e, w') | panic ↦ (panic, w') ]

abbrev pub return {ℓ} : {W : Type 0} {A : Type ℓ} → A → Action W A
return a w = (ok a, w)

abbrev pub fail {ℓ} : {W : Type 0} {A : Type ℓ} → Error → Action W A
fail e w = (err e, w)

abbrev pub lift {ℓ} : {W : Type 0} {A : Type ℓ} → Result A → Action W A
lift r w = (r, w)

-- `if err != nil { return errors.Join(e, err) }`
abbrev pub joined {ℓ} : {W : Type 0} {A : Type ℓ} → Error → Action W A → Action W A
joined e m w =
    let (r, w') = m w in
    elim r [ ok a ↦ (ok a, w') | err e' ↦ (err (join e e'), w') | panic ↦ (panic, w') ]

-- interface SecretProvider. The library overwrites the slice that `Secret` returned with zeros;
-- `wiped` is what that does to a world which still holds the slice.
pub record SecretProvider (W : Type 0) : Type 0 where
  pub secret : Action W Bytes
  pub wiped : W → W

-- interface HMACProvider
pub record HmacProvider (W : Type 0) : Type 0 where
  pub hmac : Algorithm → Bytes → Action W Bytes

pub record SecretRuntime (W : Type 0) : Type 0 where
  pub secret : Bytes
  pub provider : Option (SecretProvider W)
  pub hmac_provider : Option (HmacProvider W)

-- The loop of `clearStaticSecret` over the positions from `i` on, with `rounds` left.
unfoldable pub wipe_loop : ℕ → ℕ → Bytes → Bytes
wipe_loop zero i secret = secret
wipe_loop (suc rounds) i secret = wipe_loop rounds (i + 1) (set secret i 0)

module _ {W : Type 0} where
  unfoldable pub new_static_secret_runtime : Bytes → SecretRuntime W
  new_static_secret_runtime secret = record {
    secret = secret;
    provider = none;
    hmac_provider = none;
  }

  unfoldable pub new_provider_secret_runtime : SecretProvider W → SecretRuntime W
  new_provider_secret_runtime p = record { secret = []; provider = some p; hmac_provider = none }

  unfoldable pub new_hmac_provider_runtime : HmacProvider W → SecretRuntime W
  new_hmac_provider_runtime p = record { secret = []; provider = none; hmac_provider = some p }

  unfoldable pub has_static_secret : SecretRuntime W → Bool
  has_static_secret r = ltb 0 (length r.secret)

  -- The field becomes nil. The array that it pointed to, which the caller's slice still shows, is
  -- overwritten; its contents are the second result.
  unfoldable pub clear_static_secret : SecretRuntime W → SecretRuntime W × Bytes
  clear_static_secret r = (record r { secret = [] }, wipe_loop (length r.secret) 0 r.secret)

  unfoldable pub has_external_provider : SecretRuntime W → Bool
  has_external_provider r =
      elim r.provider [ some _ ↦ true | none ↦ false ]
      || elim r.hmac_provider [ some _ ↦ true | none ↦ false ]

  module _ (h : Hmac) where
    -- The tail of `withMAC`: the secret came from a provider. `fn` uses the keyed hash, and then
    -- the secret is wiped.
    unfoldable pub with_provided :
        {A : Type 0} → SecretProvider W → HashFn → ((Bytes → Bytes) → A) → Action W A
    with_provided p hash_fn fn = do
      secret ← joined secret_provider p.secret
      if length secret == 0
          then fail invalid_secret
          else (λ w. (ok (fn (h.mac hash_fn secret)), p.wiped w))

    unfoldable pub with_mac :
        {A : Type 0} → SecretRuntime W → HashFn → ((Bytes → Bytes) → A) → Action W A
    with_mac r hash_fn fn =
        if ltb 0 (length r.secret)
        then return (fn (h.mac hash_fn r.secret))
        else elim r.provider [ none ↦ fail invalid_secret | some p ↦ with_provided p hash_fn fn ]

    unfoldable pub compute_hmac : SecretRuntime W → Algorithm → HashFn → Bytes → Action W Bytes
    compute_hmac r algorithm hash_fn message = elim r.hmac_provider [
      | none ↦ with_mac r hash_fn (λ mac. mac message)
      | some p ↦ do
        sum ← joined hmac_provider (p.hmac algorithm message)
        if not (length sum == expected_hmac_size algorithm) then fail hmac_provider else return sum
    ]
