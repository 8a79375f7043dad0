-- ===== src/Prelude/Datetimes.antt =====
-- Python `datetime` arguments: with no time zone, or an instant in microseconds of UTC.
use Prim.Native.Nat.{ℕ}
use Prim.Native.String.{String}
use kestrel_sovereign_sdk.Prelude.Results.{Result, ok, err, value_error}

pub data DateTime : Type 0 where
  naive : ℕ → DateTime
  aware : ℕ → DateTime

-- `_aware_datetime(value, field_name)`, which several modules define alike
unfoldable pub aware_datetime : DateTime → String → Result ℕ
aware_datetime (naive t) field_name = err (value_error field_name)
aware_datetime (aware t) field_name = ok t
