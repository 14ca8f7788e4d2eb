-- ===== src/Tests/Contexts.antt =====
-- Contexts at concrete inputs.
use genotp_go.Base.{
  true, [], ◌∷◌, length, get_or, Bytes, All, codes, ◌≡◌, ◌≢◌, ◌↔◌, refl, ap, arith,
}
use genotp_go.Context.{OtpContextBuilder, build, set_field}
use genotp_go.Context.Build.{Same, build-set_field, build_iff, IsClean-entries}
use genotp_go.Tests.Data.{avoids, avoided}

-- A builder with an address and a device, and one where they were set in the other order.
abbrev address_first : OtpContextBuilder
address_first = record {
  fields = (codes "ip", codes "10.0.0.1") ∷ (codes "device", codes "d") ∷ [];
}

abbrev device_first : OtpContextBuilder
device_first = record { fields = (codes "device", codes "d") ∷ (codes "ip", codes "10.0.0.1") ∷ [] }

build-set_field_example :
    build (
      set_field (set_field address_first (codes "region") (codes "x")) (codes "origin") (codes "y"))
    ≡ build (
        set_field
          (set_field address_first (codes "origin") (codes "y"))
          (codes "region")
          (codes "x"))
build-set_field_example =
    build-set_field address_first (codes "region") (codes "x") (codes "origin") (codes "y")
      (((λ e. ground (arith, ap length e)), tt), (tt, tt))
      (λ e. ground (arith, ap (λ x. get_or x 0 0) e))

entry_clean :
    (k v : Bytes)
    → avoids b'=' k ≡ true
    → avoids 0 v ≡ true
    → All (λ b. b ≢ b'=') k × All (λ b. b ≢ 0) v
entry_clean k v e e' = (avoided b'=' k e, avoided 0 v e')

build_iff_example :
    (build address_first ≡ build device_first) ↔ Same address_first.fields device_first.fields
build_iff_example =
    build_iff address_first device_first (((λ e. ground (arith, ap length e)), tt), (tt, tt))
      (((λ e. ground (arith, ap length e)), tt), (tt, tt))
      (IsClean-entries address_first.fields (
        entry_clean (codes "ip") (codes "10.0.0.1") refl refl,
        (entry_clean (codes "device") (codes "d") refl refl, tt),
      ))
      (IsClean-entries device_first.fields (
        entry_clean (codes "device") (codes "d") refl refl,
        (entry_clean (codes "ip") (codes "10.0.0.1") refl refl, tt),
      ))
