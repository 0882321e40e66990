-- ===== src/Protocol/Total.antt =====
-- The protocol that enclave/src/main.rs detects is one that the field policy registry knows:
-- `field_policy_registry` requires a version for each name in `SUPPORTED_PROTOCOLS`, so the look-up
-- in `field_policy_version` does not panic on a detected protocol.
use proof_of_observation.Base.{
  Bool, true, false, Option, none, some, List, [], ◌∷◌, ◌≡◌, refl, Bytes, equal, equal_iff, arith,
  ◌||◌,
}
use proof_of_observation.Text.{Text, to_ascii_lowercase, trim}
use proof_of_observation.Json.{Value, Libs}
use proof_of_observation.Protocol.{
  supported_protocols, same_name, normalize_protocol_family, family_of_route, family_of_body,
  or_else, and_then, from_slice, detect_protocol_family,
}

-- The names that the code returns, by membership.
unfoldable pub listed : Text → List Text → Bool
listed t [] = false
listed t (name ∷ names) = equal t name || listed t names

abbrev pub Supported : Text → Type 0
Supported t = listed t supported_protocols ≡ true

-- Nothing, or a supported protocol.
pub data AllSupported : Option Text → Type 0 where
  nothing : AllSupported none
  just : {t : Text} → Supported t → AllSupported (some t)

same_name-listed :
    (value : Text) (names : List Text) (t : Text)
    → same_name value names ≡ some t
    → listed t names ≡ true
unfolding same_name listed
same_name-listed value [] t h = cc
same_name-listed value (name ∷ names) t h =
    ground (arith, same_name-listed value names t, equal_iff value name, equal_iff t name)

normalize-AllSupported : (value : Text) → AllSupported (normalize_protocol_family value)
unfolding normalize_protocol_family
normalize-AllSupported value =
    go (same_name (to_ascii_lowercase (trim value)) supported_protocols) refl
  where
    go :
        (o : Option Text)
        → same_name (to_ascii_lowercase (trim value)) supported_protocols ≡ o
        → AllSupported o
    go none e = nothing
    go (some t) e =
        just (same_name-listed (to_ascii_lowercase (trim value)) supported_protocols t e)

or_else-AllSupported :
    (a b : Option Text) → AllSupported a → AllSupported b → AllSupported (or_else a b)
or_else-AllSupported none b ha hb = hb
or_else-AllSupported (some t) b ha hb = ha

and_then-AllSupported {ℓ} :
    {A : Type ℓ} (o : Option A) (f : A → Option Text)
    → ((a : A) → AllSupported (f a))
    → AllSupported (and_then o f)
and_then-AllSupported none f h = nothing
and_then-AllSupported (some a) f h = h a

abbrev known : Option Text → Bool
known none = true
known (some t) = listed t supported_protocols

known-AllSupported : (o : Option Text) → known o ≡ true → AllSupported o
known-AllSupported none h = nothing
known-AllSupported (some t) h = just h

route-AllSupported : (h p : Text) → AllSupported (family_of_route h p)
unfolding family_of_route listed
route-AllSupported h p = known-AllSupported (family_of_route h p) (ground arith)

body-AllSupported : {N : Type 0} (v : Value N) → AllSupported (family_of_body v)
unfolding family_of_body listed
body-AllSupported v = known-AllSupported (family_of_body v) (ground arith)

-- Whatever the host, the path, the body and the two hints are, a protocol that
-- `detect_protocol_family` returns is one of `SUPPORTED_PROTOCOLS`.
pub detect_protocol_family-AllSupported :
    (libs : Libs) (host path : Text) (body : Bytes) (enhanced configured : Option Text)
    → AllSupported (detect_protocol_family libs host path body enhanced configured)
unfolding detect_protocol_family
detect_protocol_family-AllSupported libs host path body enhanced configured =
    or_else-AllSupported _ _ (route-AllSupported _ _) (
      or_else-AllSupported _ _
        (and_then-AllSupported enhanced normalize_protocol_family normalize-AllSupported)
        (or_else-AllSupported _ _
          (and_then-AllSupported configured normalize_protocol_family normalize-AllSupported)
          (and_then-AllSupported (from_slice libs body) family_of_body body-AllSupported)))
