-- ===== src/Tests/Texts.antt =====
-- The text of an error for a device.
use omemo_go.Base.{◌≡◌, refl}
use omemo_go.Errors.{external}
use omemo_go.Errors.Text.{decimal, error_text}
use omemo_go.Tests.World.{bob}

decimal_example : decimal 4294967295 ≡ "4294967295"
unfolding decimal
decimal_example = refl

decimal_zero : decimal 0 ≡ "0"
unfolding decimal
decimal_zero = refl

error_text_test :
    error_text (λ e. "no bundle") (record { device = bob; err = external 1 })
    ≡ "device bob/2: no bundle"
unfolding error_text
error_text_test = refl
