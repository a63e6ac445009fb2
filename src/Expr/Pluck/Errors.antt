-- ===== src/Expr/Pluck/Errors.antt =====
-- When `PluckClaims` fails, and what it forwards when it does not.
use hub_agent_kubernetes.Prelude.{
  String, ◌≡◌, ◌≢◌, refl, ap, ◌↔◌, Option, none, some, List, [], ◌∷◌, Run, ret, panic, All, GoMap,
  insert, string_eq,
}
use hub_agent_kubernetes.Expr.{Value, str, num, bool, arr, Items, nil, cons, Claims, resolve}
use hub_agent_kubernetes.Expr.Pluck.{
  Plucked, prepend, ok, unsupported, to_str, all_to_str, pluck_value, pluck_claim, pluck_from,
  pluck_claims,
}

-- The values that can stand in a header.
abbrev pub IsText : Value → Type 0
IsText (str s) = Unit
IsText (num s) = Unit
IsText (bool b) = Unit
IsText _ = ⊥

abbrev pub AllText : Items → Type 0
AllText nil = Unit
AllText (cons v vs) = IsText v × AllText vs

abbrev pub CanForward : Option Value → Type 0
CanForward none = Unit
CanForward (some (arr vs)) = AllText vs
CanForward (some v) = IsText v

to_str-IsText : (v : Value) → (to_str v ≢ unsupported) ↔ IsText v
unfolding to_str
to_str-IsText (str s) = (λ h. tt, λ h. cc)
to_str-IsText (num s) = (λ h. tt, λ h. cc)
to_str-IsText (bool s) = (λ h. tt, λ h. cc)
to_str-IsText v = (λ h. h refl, λ h. absurd h)

all_to_str-AllText : (vs : Items) → (all_to_str vs ≢ unsupported) ↔ AllText vs
unfolding all_to_str
all_to_str-AllText nil = (λ h. tt, λ h. cc)
all_to_str-AllText (cons v vs) =
    both (to_str v) (all_to_str vs) (to_str-IsText v) (all_to_str-AllText vs)
  where
    both :
        (x : Plucked String) (y : Plucked (List String))
        → (x ≢ unsupported) ↔ IsText v
        → (y ≢ unsupported) ↔ AllText vs
        → (prepend x y ≢ unsupported) ↔ (IsText v × AllText vs)
    both (ok s) (ok r) p q = (λ h. (p.0 (cc), q.0 (cc)), λ h. cc)
    both (ok s) unsupported p q = (λ h. absurd (h refl), λ h. absurd (q.1 h.1 refl))
    both unsupported y p q = (λ h. absurd (h refl), λ h. absurd (p.1 h.0 refl))

pluck_value-CanForward : (v : Option Value) → (pluck_value v ≢ unsupported) ↔ CanForward v
unfolding pluck_value
pluck_value-CanForward none = (λ h. tt, λ h. cc)
pluck_value-CanForward (some (arr vs)) = all_to_str-AllText vs
pluck_value-CanForward (some (str s)) = (λ h. tt, λ h. unfold to_str in cc)
pluck_value-CanForward (some (num s)) = (λ h. tt, λ h. unfold to_str in cc)
pluck_value-CanForward (some (bool s)) = (λ h. tt, λ h. unfold to_str in cc)
pluck_value-CanForward (some v) = (λ h. h (unfold to_str in refl), λ h. absurd h)

-- The claim that a selection names resolves, and can stand in a header.
abbrev pub IsForwardable : Claims → String × String → Type 0
IsForwardable claims (name, claim) =
    (v : Option Value) × (resolve claim claims ≡ ret v) × CanForward v

pluck_claim-ok :
    (claim : String) (claims : Claims) (xs : List String)
    → pluck_claim claim claims ≡ ret (ok xs)
    → (v : Option Value) × (resolve claim claims ≡ ret v) × CanForward v
unfolding pluck_claim
pluck_claim-ok claim claims xs h = go (resolve claim claims) refl
  where
    go :
        (m : Run (Option Value))
        → resolve claim claims ≡ m
        → (v : Option Value) × (resolve claim claims ≡ ret v) × CanForward v
    go panic e = let h' : panic ≡ ret (ok xs) = rw (e, pluck_claim) at h in cc
    go (ret v) e =
        let h' : ret (pluck_value v) ≡ ret (ok xs) = rw (e, pluck_claim) at h in
        (v, e, (pluck_value-CanForward v).0 (λ u. cc))

ok-pluck_claim :
    (claim : String) (claims : Claims) (v : Option Value)
    → resolve claim claims ≡ ret v
    → CanForward v
    → (xs : List String) × (pluck_claim claim claims ≡ ret (ok xs))
unfolding pluck_claim
ok-pluck_claim claim claims v e h = go (pluck_value v) refl
  where
    go :
        (p : Plucked (List String))
        → pluck_value v ≡ p
        → (xs : List String) × (pluck_claim claim claims ≡ ret (ok xs))
    go (ok xs) q = (xs, rw (e, pluck_claim) (ap ret q))
    go unsupported q = absurd ((pluck_value-CanForward v).1 h q)

pluck_from-IsForwardable :
    (sel : GoMap String String) (claims : Claims) (result r : GoMap String (List String))
    → pluck_from sel claims result ≡ ret (ok r)
    → All (IsForwardable claims) sel
unfolding pluck_from
pluck_from-IsForwardable [] claims result r h = tt
pluck_from-IsForwardable ((name, claim) ∷ more) claims result r h =
    go (pluck_claim claim claims) refl (λ res. pluck_from-IsForwardable more claims res r)
  where
    go :
        (m : Run (Plucked (List String)))
        → pluck_claim claim claims ≡ m
        → ((res : GoMap String (List String))
            → pluck_from more claims res ≡ ret (ok r)
            → All (IsForwardable claims) more)
        → IsForwardable claims (name, claim) × All (IsForwardable claims) more
    go panic e ih = let h' : panic ≡ ret (ok r) = rw (e, pluck_from) at h in cc
    go (ret unsupported) e ih =
        let h' : ret unsupported ≡ ret (ok r) = rw (e, pluck_from) at h in cc
    go (ret (ok [])) e ih = (pluck_claim-ok claim claims [] e, ih result (rw (e, pluck_from) at h))
    go (ret (ok (x ∷ xs))) e ih =
        (pluck_claim-ok claim claims (x ∷ xs) e, ih _ (rw (e, pluck_from) at h))

IsForwardable-pluck_from :
    (sel : GoMap String String) (claims : Claims) (result : GoMap String (List String))
    → All (IsForwardable claims) sel
    → (r : GoMap String (List String)) × (pluck_from sel claims result ≡ ret (ok r))
unfolding pluck_from
IsForwardable-pluck_from [] claims result h = (result, refl)
IsForwardable-pluck_from ((name, claim) ∷ more) claims result ((v, found, text), rest) =
    let (xs, e) = ok-pluck_claim claim claims v found text in
    go xs e (λ res. IsForwardable-pluck_from more claims res rest)
  where
    go :
        (xs : List String)
        → pluck_claim claim claims ≡ ret (ok xs)
        → ((res : GoMap String (List String))
            → (r : GoMap String (List String)) × (pluck_from more claims res ≡ ret (ok r)))
        → (r : GoMap String (List String)) × (pluck_from ((name, claim) ∷ more) claims result
            ≡ ret (ok r))
    go [] e ih = let (r, q) = ih result in (r, rw (e, pluck_from) q)
    go (x ∷ xs) e ih = let (r, q) = ih (insert name (x ∷ xs) result) in (r, rw (e, pluck_from) q)

-- `PluckClaims` returns headers without an error exactly when every claim of the selection
-- resolves without a panic to nothing, to a text, a number or a Boolean, or to an array of texts,
-- numbers and Booleans.
pub pluck_claims-ok_iff :
    (sel : GoMap String String) (claims : Claims)
    → ((r : GoMap String (List String)) × (pluck_claims sel claims ≡ ret (ok r)))
      ↔ All (IsForwardable claims) sel
unfolding pluck_claims
pluck_claims-ok_iff sel claims =
    (λ h. pluck_from-IsForwardable sel claims [] h.0 h.1, IsForwardable-pluck_from sel claims [])
