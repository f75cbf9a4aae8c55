-- ===== src/Verification/Tests.antt =====
-- The theorems about the verifier at concrete canaries, and runs of it.
use fleet_lm.Base.{◌≤◌, none, ◌≡◌, refl, List, [], ◌∷◌, length, contains, arith, round_div}
use fleet_lm.Verification.{Primitives, Canary, new_verifier, select, canary_count, suspects}
use fleet_lm.Verification.Accounts.{
  Deed, registers, checks, notes, do_all, IsBalanced, do_all-IsBalanced,
}
use fleet_lm.Verification.Overhead.{length-select}
use fleet_lm.Verification.Suspects.{caught_in, suspects_were_caught}

abbrev lib : Primitives
lib = record { digest = λ t. t; ratio = λ a b. 0 }

abbrev sky : Canary
sky = record { prompt = "Colour of the sky?"; expected = "blue"; model = none }

abbrev four_deeds : List Deed
four_deeds =
    registers 5 sky
    ∷ checks 5 7 " blue "
    ∷ checks 5 8 "green"
    ∷ notes 9 8 "a long answer that was given before, word by word" "Why?"
    ∷ []

do_all-IsBalanced_example :
    IsBalanced (do_all lib four_deeds (new_verifier (sky ∷ []) 20_000 850_000))
do_all-IsBalanced_example = do_all-IsBalanced lib four_deeds (sky ∷ []) 20_000 850_000

length-select_example :
    let planted = length (select 200 (new_verifier (sky ∷ []) 20_000 850_000)) in
    (1 ≤ planted) × (planted ≤ 200)
length-select_example = length-select sky [] 20_000 850_000 200 (omega arith) (omega arith)

plants_four : canary_count 200 (new_verifier (sky ∷ []) 20_000 850_000) ≡ 4
unfolding canary_count new_verifier round_div
plants_four = refl

-- The node that answered the canary rightly is no suspect, the other is one.
suspects_were_caught_example :
    contains 8 (suspects (do_all lib four_deeds (new_verifier (sky ∷ []) 20_000 850_000)).trust)
    ≡ caught_in lib 8 four_deeds (new_verifier (sky ∷ []) 20_000 850_000)
suspects_were_caught_example = suspects_were_caught lib 8 four_deeds (sky ∷ []) 20_000 850_000
