-- ===== src/Examples/Exchanging.antt =====
-- An exchange between host and container that runs a program to its end.
use go_sandbox.Container.Exchange.{
  State, Reaches, steps, move, running, unlocked, idle, begin, initial_state,
}
use go_sandbox.Common.{
  List, ℕ, ◌∷◌, ◌≡◌, inl, [], ◌⊎◌, subst, inr, sym, suc, refl, zero, is_nil, true,
}
use go_sandbox.Common.Explore.{pick, Among}
use go_sandbox.Container.Exchange.Balanced.{is_over, is_clean, exchange_balanced}
use go_sandbox.Container.Exchange.Finished.{Inevitable, IsFinished, exchange_finishes}

pick-Among : (d : State) (xs : List State) (n : ℕ) → (pick d xs n ≡ d) ⊎ Among (pick d xs n) xs
pick-Among d [] n = inl refl
pick-Among d (x ∷ xs) zero = inr (inl refl)
pick-Among d (x ∷ xs) (suc n) = elim (pick-Among d xs n) [ inl e ↦ inl e | inr m ↦ inr (inr m) ]

-- the state after the given choices, an impossible one left out
abbrev walk : List ℕ → State → State
walk [] s = s
walk (n ∷ ns) s = walk ns (pick s (steps s) n)

walk-Reaches : (ns : List ℕ) (s : State) → Reaches s → Reaches (walk ns s)
walk-Reaches [] s r = r
walk-Reaches (n ∷ ns) s r = elim (pick-Among s (steps s) n) [
  | inl e ↦ walk-Reaches ns (pick s (steps s) n) (subst Reaches (sym e) r)
  | inr m ↦ walk-Reaches ns (pick s (steps s) n) (move s (pick s (steps s) n) r m)
]

-- the program runs to its end, and its result comes before the kill
abbrev choices : List ℕ
choices = 0 ∷ 0 ∷ 0 ∷ 0 ∷ 0 ∷ 0 ∷ 0 ∷ 1 ∷ 1 ∷ 1 ∷ 1 ∷ 0 ∷ 0 ∷ 0 ∷ 0 ∷ 0 ∷ []

abbrev last_state : State
last_state = record { host = running unlocked true; server = idle; commands = []; replies = [] }

walked : walk choices initial_state ≡ last_state
unfolding steps
walked = refl

exchange_balanced_example :
    (is_nil (steps last_state) ≡ is_over last_state.host)
    × (is_over last_state.host ≡ true → is_clean last_state ≡ true)
exchange_balanced_example =
    exchange_balanced last_state (subst Reaches walked (walk-Reaches choices initial_state begin))

exchange_finishes_example : Inevitable IsFinished initial_state
exchange_finishes_example = exchange_finishes initial_state begin
