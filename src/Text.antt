-- ===== src/Text.antt =====
-- Texts: `std::to_string` of an unsigned integer.
pub mod Stoul
pub mod Lower
use Prim.Native.String.{◌++◌}
use painless_mesh_simulator.Prelude.{ℕ, zero, suc, ◌/◌, ◌%◌, String, ltb, if◌then◌else◌, ◌≡◌, refl}

unfoldable digit : ℕ → String
digit zero = "0"
digit (suc zero) = "1"
digit (suc (suc zero)) = "2"
digit (suc (suc (suc zero))) = "3"
digit (suc (suc (suc (suc zero)))) = "4"
digit (suc (suc (suc (suc (suc zero))))) = "5"
digit (suc (suc (suc (suc (suc (suc zero)))))) = "6"
digit (suc (suc (suc (suc (suc (suc (suc zero))))))) = "7"
digit (suc (suc (suc (suc (suc (suc (suc (suc zero)))))))) = "8"
digit _ = "9"

-- The fuel bounds the number of digits: a number has no more digits than one more than itself.
unfoldable decimal : ℕ → ℕ → String
decimal zero n = ""
decimal (suc fuel) n =
    let front = decimal fuel (n / 10) in if ltb n 10 then digit n else front ++ digit (n % 10)

unfoldable pub to_string : ℕ → String
unfolding decimal digit
to_string n = decimal (suc n) n

to_string_run : to_string 4294967295 ≡ "4294967295"
unfolding to_string
to_string_run = refl
