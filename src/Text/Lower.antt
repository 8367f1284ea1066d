-- ===== src/Text/Lower.antt =====
-- std::transform of a text with ::tolower, in the locale "C".
use Prim.Native.Char.{Char, code}
use painless_mesh_simulator.Prelude.{ℕ, zero, suc, ◌-◌, String, ◌&&◌, leb, if◌then◌else◌, ◌≡◌, refl}

-- The letter at a position, or d past the end.
letter_at : ℕ → Char → String → Char
letter_at n d String.[] = d
letter_at zero d (String.◌∷◌ c s) = c
letter_at (suc n) d (String.◌∷◌ c s) = letter_at n d s

tolower : Char → Char
unfolding letter_at
tolower c =
    if leb 65 (code c) && leb (code c) 90
    then letter_at (code c - 65) c "abcdefghijklmnopqrstuvwxyz"
    else c

unfoldable pub lower : String → String
unfolding tolower
lower String.[] = ""
lower (String.◌∷◌ c s) = String.◌∷◌ (tolower c) (lower s)

lower_run : lower "STOP_Node 1" ≡ "stop_node 1"
unfolding lower
lower_run = refl
