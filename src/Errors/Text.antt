-- ===== src/Errors/Text.antt =====
-- The text of a DeviceError (errors.go). The text of the error inside is an argument: the field is of
-- Go's interface type `error`, whose `Error` may be any code.
use Prim.Native.Nat.{ℕ, zero, suc, ◌/◌, ◌%◌}
use Prim.Native.String.{String, ◌++◌}
use omemo_go.Errors.{Error, DeviceError}

-- A digit, as a character.
abbrev digit : ℕ → String
digit zero = "0"
digit (suc zero) = "1"
digit (suc (suc zero)) = "2"
digit (suc (suc (suc zero))) = "3"
digit (suc (suc (suc (suc zero)))) = "4"
digit (suc (suc (suc (suc (suc zero))))) = "5"
digit (suc (suc (suc (suc (suc (suc zero)))))) = "6"
digit (suc (suc (suc (suc (suc (suc (suc zero))))))) = "7"
digit (suc (suc (suc (suc (suc (suc (suc (suc zero)))))))) = "8"
digit _ = "9"

-- The digits before `text`, with `fuel` digits at most.
unfoldable pub digits_before : ℕ → ℕ → String → String
digits_before zero n text = text
digits_before (suc fuel) n text =
    let text' = digit (n % 10) ++ text in
    let rest = digits_before fuel (n / 10) text' in elim (n / 10) [ zero ↦ text' | suc m ↦ rest ]

-- What `%d` prints of a uint32, which has ten digits at most.
unfoldable pub decimal : ℕ → String
unfolding digits_before
decimal n = digits_before 10 n ""

-- DeviceError.Error
unfoldable pub error_text : (Error → String) → DeviceError → String
unfolding decimal
error_text text e = "device " ++ e.device.jid ++ "/" ++ decimal e.device.id ++ ": " ++ text e.err
