-- ===== src/Call/Dostime/Tests.antt =====
-- A time in 2001.
use linuxax.Prelude.{ℕ, ◌-◌, ◌%◌, ◌≡◌, List, some, arith}
use linuxax.Call.Dostime.Text.{unix2yapp, yapp2unix}
use linuxax.Call.Dostime.Text.Hex.{IsStamp, yapp2unix-unix2yapp}

yapp2unix-unix2yapp_example :
    (text : List ℕ) × (unix2yapp 1000000001 ≡ some text)
    × IsStamp text
    × (yapp2unix text ≡ some (1000000001 - 1000000001 % 2))
yapp2unix-unix2yapp_example = yapp2unix-unix2yapp 1000000001 (omega arith) (omega arith)
