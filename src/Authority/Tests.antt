-- ===== src/Authority/Tests.antt =====
-- The rules of authority at concrete sets.
use fastapitemplate.Common.Lists.{contains}
use fastapitemplate.Common.{◌≡◌, refl, true, [], ◌∷◌, string_eq, String}
use fastapitemplate.Authority.{beyond, changed}
use fastapitemplate.Authority.Rules.{beyond-changed}

nothing_beyond : beyond ("item:view" ∷ []) (changed [] ("item:view" ∷ [])) ≡ []
unfolding beyond changed
nothing_beyond = refl

beyond-changed_example : contains {A = String} "item:view" ("item:view" ∷ []) ≡ true
beyond-changed_example =
    beyond-changed ("item:view" ∷ []) [] ("item:view" ∷ []) "item:view" nothing_beyond refl

escalation :
    beyond ("user:manage" ∷ []) (changed [] ("user:manage" ∷ "role:manage" ∷ []))
    ≡ "role:manage" ∷ []
unfolding beyond changed
escalation = refl
