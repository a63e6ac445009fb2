-- ===== src/Acp/Oidc/Cookie/Chunks.antt =====
-- `chunkBytes` and the numbered cookies of pkg/acp/oidc/cookie.go: no byte is lost, and the numbers
-- find each chunk again.
use hub_agent_kubernetes.Prelude.{
  ℕ, zero, suc, ◌+◌, ◌*◌, ◌≤◌, Char, String, true, false, Option, none, some, List, [], ◌∷◌, ◌++◌,
  ◌≡◌, ◌≢◌, refl, ap, sym, ◌∙◌, ◌==◌, string_eq, GoMap, lookup, length, take, drop, length-append,
  length-drop, take-append-drop, append-nil, arith, ==_refl, ==_ne, All, ret,
}
use hub_agent_kubernetes.Strings.{runes, runes-string_of, has_prefix, char_eq}
use hub_agent_kubernetes.Strings.Decimal.{decimal, decimal_injective}
use hub_agent_kubernetes.Acp.Oidc.{Bytes, HttpCookie}
use hub_agent_kubernetes.Acp.Oidc.Cookie.{
  CookieSessionStore, chunks_from, chunk_bytes, chunk_name, dash, number_from, collect_from,
  is_session,
}

abbrev pub flatten : List Bytes → Bytes
flatten [] = []
flatten (c ∷ chunks) = c ++ flatten chunks

abbrev pub nth : List Bytes → ℕ → Option Bytes
nth [] k = none
nth (c ∷ chunks) zero = some c
nth (c ∷ chunks) (suc k) = nth chunks k

flatten-chunks_from :
    (fuel : ℕ) (b : Bytes) (lim : ℕ) → length b ≤ fuel → flatten (chunks_from fuel b (suc lim)) ≡ b
unfolding chunks_from
flatten-chunks_from zero [] lim h = refl
flatten-chunks_from zero (x ∷ b) lim h = absurd (omega arith)
flatten-chunks_from (suc fuel) [] lim h = refl
flatten-chunks_from (suc fuel) (x ∷ b) lim h =
    ap (λ t. (x ∷ take lim b) ++ t)
      (flatten-chunks_from fuel (drop lim b) lim (omega (arith, length-drop lim b)))
    ∙ ap (◌∷◌ x) (take-append-drop lim b)

length-take-le : (n : ℕ) (b : Bytes) → length (take n b) ≤ n
length-take-le zero b = omega arith
length-take-le (suc n) [] = omega arith
length-take-le (suc n) (x ∷ b) = omega (arith, length-take-le n b)

chunks_from-le :
    (fuel : ℕ) (b : Bytes) (lim : ℕ) → All (λ c. length c ≤ lim) (chunks_from fuel b lim)
unfolding chunks_from
chunks_from-le zero b lim = tt
chunks_from-le (suc fuel) [] lim = tt
chunks_from-le (suc fuel) (x ∷ b) lim =
    (length-take-le lim (x ∷ b), chunks_from-le fuel (drop lim (x ∷ b)) lim)

length-chunks_from :
    (fuel : ℕ) (b : Bytes) (lim n : ℕ)
    → length b ≤ n * suc lim
    → length (chunks_from fuel b (suc lim)) ≤ n
unfolding chunks_from
length-chunks_from zero b lim n h = omega arith
length-chunks_from (suc fuel) [] lim n h = omega arith
length-chunks_from (suc fuel) (x ∷ b) lim zero h = absurd (omega arith)
length-chunks_from (suc fuel) (x ∷ b) lim (suc n) h =
    let less : length (drop lim b) ≤ n * suc lim = grind (arith, length-drop lim b) in
    omega (arith, length-chunks_from fuel (drop lim b) lim n less)

pub length-chunk_bytes :
    (b : Bytes) (lim n : ℕ) (chunks : List Bytes)
    → chunk_bytes b lim ≡ ret chunks
    → length b ≤ n * lim
    → length chunks ≤ n
unfolding chunk_bytes
length-chunk_bytes b zero n chunks h few = absurd (cc h)
length-chunk_bytes b (suc lim) n chunks h few =
    let e : chunks_from (length b) b (suc lim) ≡ chunks = cc h in
    rw (← e) (length-chunks_from (length b) b lim n few)

-- What `chunkBytes` gives puts the bytes together again, in chunks within the limit.
pub flatten-chunk_bytes :
    (b : Bytes) (lim : ℕ) (chunks : List Bytes)
    → chunk_bytes b lim ≡ ret chunks
    → (flatten chunks ≡ b) × All (λ c. length c ≤ lim) chunks
unfolding chunk_bytes
flatten-chunk_bytes b zero chunks h = absurd (cc h)
flatten-chunk_bytes b (suc lim) chunks h =
    let e : chunks_from (length b) b (suc lim) ≡ chunks = cc h in
    rw (← e)
      (flatten-chunks_from (length b) b lim (omega arith), chunks_from-le (length b) b (suc lim))

append_cancel : (s t u : List Char) → s ++ t ≡ s ++ u → t ≡ u
append_cancel [] t u h = h
append_cancel (c ∷ s) t u h = append_cancel s t u (cc h)

pub chunk_name-runes :
    (name : String) (i : ℕ) → runes (chunk_name name i) ≡ runes name ++ dash ∷ decimal i
unfolding chunk_name
chunk_name-runes name i = runes-string_of (runes name ++ dash ∷ decimal i)

pub chunk_name_injective : (name : String) (i j : ℕ) → chunk_name name i ≡ chunk_name name j → i ≡ j
chunk_name_injective name i j h =
    let e = sym (chunk_name-runes name i) ∙ ap runes h ∙ chunk_name-runes name j in
    let d = append_cancel (runes name) (dash ∷ decimal i) (dash ∷ decimal j) e in
    decimal_injective i j (cc d)

pub chunk_name-ne : (name : String) (i : ℕ) → chunk_name name i ≢ name
chunk_name-ne name i h =
    let e = ap length (sym (chunk_name-runes name i) ∙ ap runes h) in
    omega (arith, e, length-append {0} (runes name) (dash ∷ decimal i))

has_prefix_append : (s t : List Char) → has_prefix (s ++ t) s ≡ true
unfolding has_prefix
has_prefix_append [] [] = refl
has_prefix_append [] (d ∷ t) = refl
has_prefix_append (c ∷ s) t = rw (==_refl c) (has_prefix_append s t)

-- Numbered names are among those that `Delete` and `RemoveCookie` take for the session's.
pub chunk_name-is_session :
    (s : CookieSessionStore) (i : ℕ) → is_session s (chunk_name s.name i) ≡ true
chunk_name-is_session s i =
    rw (chunk_name-runes s.name i) (has_prefix_append (runes s.name) (dash ∷ decimal i))

pub name-is_session : (s : CookieSessionStore) → is_session s s.name ≡ true
name-is_session s = rw (append-nil (runes s.name)) at (has_prefix_append (runes s.name) [])

-- The names and values that cookies are sent back with.
abbrev pub held : List HttpCookie → GoMap String Bytes
held [] = []
held (c ∷ cookies) = (c.name, c.value) ∷ held cookies

-- Among the numbered cookies, a number finds the chunk at its place.
pub lookup-number_from :
    (s : CookieSessionStore) (chunks : List Bytes) (i k : ℕ)
    → lookup (chunk_name s.name (i + k)) (held (number_from s i chunks)) ≡ nth chunks k
unfolding number_from lookup
lookup-number_from s [] i k = refl
lookup-number_from s (c ∷ chunks) i zero =
    let e : i + 0 ≡ i = omega arith in rw (e, ==_refl (chunk_name s.name i))
lookup-number_from s (c ∷ chunks) i (suc k) =
    let apart : (chunk_name s.name i == chunk_name s.name (i + suc k)) ≡ false =
      ==_ne (chunk_name s.name i) (chunk_name s.name (i + suc k))
        (λ e. omega (arith, chunk_name_injective s.name i (i + suc k) e)) in
    let e : (i + 1) + k ≡ i + suc k = omega arith in
    let ih = lookup-number_from s chunks (i + 1) k in rw apart (rw e at ih)

-- The plain name finds no numbered cookie.
pub lookup-number_from_name :
    (s : CookieSessionStore) (chunks : List Bytes) (i : ℕ)
    → lookup s.name (held (number_from s i chunks)) ≡ none
unfolding number_from lookup
lookup-number_from_name s [] i = refl
lookup-number_from_name s (c ∷ chunks) i =
    rw (==_ne (chunk_name s.name i) s.name (chunk_name-ne s.name i))
      (lookup-number_from_name s chunks (i + 1))

-- A request that has chunks under the numbers from `i` on, and none after them, is read as these.
pub collect_from-flatten :
    (get_cookie : String → Option Bytes) (name : String) (chunks : List Bytes) (rounds i : ℕ)
    → ((k : ℕ) → get_cookie (chunk_name name (i + k)) ≡ nth chunks k)
    → length chunks ≤ rounds
    → collect_from rounds get_cookie name i ≡ flatten chunks
unfolding collect_from
collect_from-flatten get_cookie name [] zero i has h = refl
collect_from-flatten get_cookie name [] (suc rounds) i has h =
    let e : i + 0 ≡ i = omega arith in let missing = rw e at (has 0) in rw (missing, collect_from)
collect_from-flatten get_cookie name (c ∷ chunks) zero i has h = absurd (omega arith)
collect_from-flatten get_cookie name (c ∷ chunks) (suc rounds) i has h =
    let e : i + 0 ≡ i = omega arith in
    let found = rw e at (has 0) in
    let rest : (k : ℕ) → get_cookie (chunk_name name ((i + 1) + k)) ≡ nth chunks k =
      λ k. (let p : (i + 1) + k ≡ i + suc k = omega arith in rw p (has (suc k))) in
    rw (found, collect_from)
      (ap (◌++◌ c) (collect_from-flatten get_cookie name chunks rounds (i + 1) rest (omega arith)))
