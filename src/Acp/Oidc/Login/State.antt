-- ===== src/Acp/Oidc/Login/State.antt =====
-- What `getStateCookie` of pkg/acp/oidc/oidc.go reads: the state that a cookie of the request keeps.
use hub_agent_kubernetes.Prelude.{
  ℕ, zero, suc, false, some, [], ◌∷◌, ◌++◌, ◌≡◌, refl, ap, sym, ◌∙◌, string_eq, nat_eq, ltb, length,
  take, drop, arith, ret, Bool-cases, Option-cases, inl, inr,
}
use hub_agent_kubernetes.Acp.Oidc.{Bytes, StateData, Got, got, unseal}
use hub_agent_kubernetes.Acp.Oidc.Handler.{World, Handler, Request, cat}
use hub_agent_kubernetes.Acp.Oidc.Login.{get_state_cookie}

-- The request has a cookie for the state of the handler, whose value is the encoding of a block and
-- of the state encrypted with it.
pub record BringsState (h : Handler) (w : World) (req : Request) (state : StateData) : Type 0 where
  pub value : Bytes
  pub iv : Bytes
  pub encrypted : Bytes
  pub has_cookie : req.get_cookie (cat (h.name ∷ "-state" ∷ [])) ≡ some value
  pub decoded : h.block.decode64 value ≡ some (iv ++ encrypted)
  pub is_block : length iv ≡ h.block.block_size
  pub is_state : w.state_json.unmarshal (h.block.xor_key_stream iv encrypted) ≡ some state

abbrev in_got : StateData → Got StateData → StateData
in_got d (got s) = s
in_got d found = d

append-take-drop : (n : ℕ) (b : Bytes) → take n b ++ drop n b ≡ b
append-take-drop zero b = refl
append-take-drop (suc n) [] = refl
append-take-drop (suc n) (x ∷ b) = ap (◌∷◌ x) (append-take-drop n b)

length-take_block : (n : ℕ) (b : Bytes) → ltb (length b) n ≡ false → length (take n b) ≡ n
length-take_block zero b h = refl
length-take_block (suc n) [] h = absurd (ground arith)
length-take_block (suc n) (x ∷ b) h =
    let ih = length-take_block n b (ground arith) in omega (arith, ih)

pub get_state_cookie-BringsState :
    (h : Handler) (w : World) (req : Request) (state : StateData)
    → get_state_cookie h w req ≡ ret (got state)
    → BringsState h w req state
unfolding get_state_cookie unseal
get_state_cookie-BringsState h w req state e =
    elim (Option-cases (req.get_cookie (cat (h.name ∷ "-state" ∷ [])))) [
      | inl bad ↦ absurd (cc (rw (bad, get_state_cookie) at e))
      | inr (value, has) ↦ elim (Option-cases (h.block.decode64 value)) [
        | inl bad ↦ absurd (cc (rw (has, bad, get_state_cookie, unseal) at e))
        | inr (b, decodes) ↦ elim (Bool-cases (ltb (length b) h.block.block_size)) [
          | inl short ↦ absurd (cc (rw (has, decodes, short, get_state_cookie, unseal) at e))
          | inr long ↦
              let n = h.block.block_size in
              let text = h.block.xor_key_stream (take n b) (drop n b) in
              elim (Option-cases (w.state_json.unmarshal text)) [
                | inl bad ↦
                    absurd (cc (rw (has, decodes, long, bad, get_state_cookie, unseal) at e))
                | inr (s, is) ↦
                    let p : got s ≡ got state =
                      cc (rw (has, decodes, long, is, get_state_cookie, unseal) at e) in
                    record {
                      value = value;
                      iv = take n b;
                      encrypted = drop n b;
                      has_cookie = has;
                      decoded = decodes ∙ ap some (sym (append-take-drop n b));
                      is_block = length-take_block n b long;
                      is_state = is ∙ ap (λ (g : Got StateData). some (in_got s g)) p;
                    }
              ]
        ]
      ]
    ]
