-- ===== src/Protocol/Wire/Enums.antt =====
-- The enumerations of src/aduib_rpc/protocol/v2 with their wire numbers.
use Prim.Native.String.{String}
use aduib_rpc.Prelude.{[], arith, if◌then◌else◌, leb, refl, ℕ, ◌==◌, ◌||◌, ◌∷◌, Option, pos, ℤ, ◌≡◌}
use aduib_rpc.Protocol.Wire
use aduib_rpc.Protocol.Wire.{Format, IsFormat, WireValue, int_value, from_wire-to_wire}

-- ResponseStatus.
pub data ResponseStatus : Type 0 where
  success error partial : ResponseStatus

status_number : ResponseStatus → ℕ
status_number success = 1
status_number error = 2
status_number partial = 3

status_of_number : ℕ → ResponseStatus
status_of_number n =
    if n == 1 then success else if n == 2 then error else if n == 3 then partial else error

unfoldable pub response_status : Format ResponseStatus
unfolding status_number status_of_number
response_status = record {
  names = ("success", success) ∷ ("error", error) ∷ ("partial", partial) ∷ [];
  of_number = status_of_number;
  default = error;
  number = status_number;
  passes = λ n. n == 1 || n == 2 || n == 3;
  default_number = 0;
}

-- HealthStatus.
pub data HealthStatus : Type 0 where
  healthy unhealthy degraded unknown : HealthStatus

health_number : HealthStatus → ℕ
health_number healthy = 1
health_number unhealthy = 2
health_number degraded = 3
health_number unknown = 4

health_of_number : ℕ → HealthStatus
health_of_number n =
    if n == 1
    then healthy
    else if n == 2
    then unhealthy
    else if n == 3
    then degraded
    else if n == 4
    then unknown
    else unknown

unfoldable pub health_status : Format HealthStatus
unfolding health_number health_of_number
health_status = record {
  names =
      ("healthy", healthy)
      ∷ ("unhealthy", unhealthy)
      ∷ ("degraded", degraded)
      ∷ ("unknown", unknown)
      ∷ [];
  of_number = health_of_number;
  default = unknown;
  number = health_number;
  passes = λ n. leb n 4;
  default_number = 4;
}

-- AuthScheme. BASIC has no number of its own.
pub data AuthScheme : Type 0 where
  unspecified bearer api_key mtls basic : AuthScheme

scheme_number : AuthScheme → ℕ
scheme_number bearer = 1
scheme_number api_key = 2
scheme_number mtls = 3
scheme_number unspecified = 0
scheme_number basic = 0

scheme_of_number : ℕ → AuthScheme
scheme_of_number n =
    if n == 1 then bearer else if n == 2 then api_key else if n == 3 then mtls else unspecified

unfoldable pub auth_scheme : Format AuthScheme
unfolding scheme_number scheme_of_number
auth_scheme = record {
  names =
      ("bearer", bearer)
      ∷ ("api_key", api_key)
      ∷ ("mtls", mtls)
      ∷ ("basic", basic)
      ∷ ("unspecified", unspecified)
      ∷ [];
  of_number = scheme_of_number;
  default = unspecified;
  number = scheme_number;
  passes = λ n. leb n 3;
  default_number = 0;
}

-- What is left of a scheme on the wire.
abbrev pub without_basic : AuthScheme → AuthScheme
without_basic basic = unspecified
without_basic s = s

status_of_number-number : (s : ResponseStatus) → status_of_number (status_number s) ≡ s
unfolding status_number status_of_number
status_of_number-number success = refl
status_of_number-number _ = refl

response_status-IsFormat : IsFormat (λ s. s) response_status
unfolding response_status status_of_number status_number
response_status-IsFormat = record {
  of_number-number = status_of_number-number;
  keep_of_number = λ n. refl;
  others = λ n h. ground arith;
  of_default = refl;
}

health_of_number-number : (s : HealthStatus) → health_of_number (health_number s) ≡ s
unfolding health_number health_of_number
health_of_number-number healthy = refl
health_of_number-number _ = refl

health_status-IsFormat : IsFormat (λ s. s) health_status
unfolding health_status health_of_number health_number
health_status-IsFormat = record {
  of_number-number = health_of_number-number;
  keep_of_number = λ n. refl;
  others = λ n h. ground arith;
  of_default = refl;
}

scheme_of_number-number : (s : AuthScheme) → scheme_of_number (scheme_number s) ≡ without_basic s
unfolding scheme_number scheme_of_number
scheme_of_number-number unspecified = refl
scheme_of_number-number _ = refl

auth_scheme-IsFormat : IsFormat without_basic auth_scheme
unfolding auth_scheme scheme_of_number scheme_number
auth_scheme-IsFormat = record {
  of_number-number = scheme_of_number-number;
  keep_of_number = λ n. ground arith;
  others = λ n h. ground arith;
  of_default = refl;
}

module _ (lower : String → String) (parse_int : String → Option ℤ) where
  -- Any value at all that is written to the wire as a ResponseStatus or a HealthStatus reads back as
  -- the member that it stands for, and so does an AuthScheme but BASIC, which reads back as
  -- UNSPECIFIED.
  pub enums_round_trip :
      (s : WireValue ResponseStatus) (h : WireValue HealthStatus) (a : WireValue AuthScheme)
      → (Wire.from_wire lower parse_int response_status
            (int_value (pos (Wire.to_wire lower parse_int response_status s)))
          ≡ Wire.from_wire lower parse_int response_status s)
        × (Wire.from_wire lower parse_int health_status
              (int_value (pos (Wire.to_wire lower parse_int health_status h)))
            ≡ Wire.from_wire lower parse_int health_status h)
        × (Wire.from_wire lower parse_int auth_scheme
              (int_value (pos (Wire.to_wire lower parse_int auth_scheme a)))
            ≡ without_basic (Wire.from_wire lower parse_int auth_scheme a))
  enums_round_trip s h a = (
    from_wire-to_wire response_status-IsFormat lower parse_int s,
    from_wire-to_wire health_status-IsFormat lower parse_int h,
    from_wire-to_wire auth_scheme-IsFormat lower parse_int a,
  )
