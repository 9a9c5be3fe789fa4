-- ===== src/Authz/Paths/Ancestors.antt =====
-- src/authz/wac.rs: the ancestors of a resource are its containers, from the nearest to the root.
use solid_server_rs.Prelude.{
  ℕ, zero, suc, ltb, ◌≤◌, ◌<◌, ◌≡◌, refl, ap, ◌∙◌, ◌≢◌, inl, inr, true, false, some, List, [], ◌∷◌,
  ◌++◌, Str, codes, contains_char, before_last, byte_len, strip_suffix, strip_suffix-append, str_eq,
  str_eq_iff, str_eq_self, lt→ltb, length, length-append, All, Bool-cases, before_last-append,
  byte_len-append, byte_len-pos, strip_suffix-none, arith, trim_end_matches,
}
use mathlib.Core.List.{append_assoc}
use solid_server_rs.Authz.Paths.{
  ancestors_loop, ancestors_nearest_first, root_of, last_is, without_suffix,
}

-- The IRI of a container below a root, from its names, the nearest first.
unfoldable pub container : Str → List Str → Str
container root [] = root
container root (name ∷ up) = (container root up ++ name) ++ codes "/"

-- A container and all that it lies in.
unfoldable pub containers : Str → List Str → List Str
unfolding container
containers root [] = root ∷ []
containers root (name ∷ up) = container root (name ∷ up) ∷ containers root up

abbrev pub IsName : Str → Type 0
IsName name = (name ≢ []) × (contains_char b'/' name ≡ false)

root-le : (root : Str) (up : List Str) → byte_len root ≤ byte_len (container root up)
unfolding container
root-le root [] = omega arith
root-le root (name ∷ up) = omega (
  arith,
  root-le root up,
  byte_len-append (container root up) name,
  byte_len-append (container root up ++ name) (codes "/"),
)

loop-step :
    (fuel : ℕ) (root p name : Str)
    → IsName name
    → byte_len root ≤ byte_len (p ++ codes "/")
    → ancestors_loop (suc fuel) root ((p ++ codes "/") ++ name)
      ≡ (p ++ codes "/") ∷ ancestors_loop fuel root p
unfolding ancestors_loop
loop-step fuel root p name (ne, plain) h =
    let longer : ltb (byte_len root) (byte_len ((p ++ codes "/") ++ name)) ≡ true =
      lt→ltb _ _ (omega (arith, byte_len-append (p ++ codes "/") name, byte_len-pos name ne)) in
    let cut : before_last b'/' ((p ++ codes "/") ++ name) ≡ some p =
      rw (append_assoc p (codes "/") name) (before_last-append b'/' p name plain) in
    rw (longer, cut) refl

loop-stop : (fuel : ℕ) (b : Str) → ancestors_loop fuel (b ++ codes "/") b ≡ []
unfolding ancestors_loop
loop-stop zero b = refl
loop-stop (suc fuel) b = ground (arith, byte_len-append b (codes "/"))

loop-containers :
    (b : Str) (up : List Str) (name : Str) (fuel : ℕ)
    → All IsName up
    → IsName name
    → length up < fuel
    → ancestors_loop fuel (b ++ codes "/") (container (b ++ codes "/") up ++ name)
      ≡ containers (b ++ codes "/") up
unfolding containers
loop-containers b up name zero ups n h = absurd (omega arith)
loop-containers b [] name (suc fuel) ups n h =
    loop-step fuel (b ++ codes "/") b name n (omega arith)
    ∙ ap (◌∷◌ (b ++ codes "/")) (loop-stop fuel b)
loop-containers b (s ∷ up) name (suc fuel) (s_name, ups) n h =
    loop-step fuel (b ++ codes "/") (container (b ++ codes "/") up ++ s) name n
      (root-le (b ++ codes "/") (s ∷ up))
    ∙ ap (◌∷◌ (container (b ++ codes "/") (s ∷ up)))
        (loop-containers b up s fuel ups s_name (omega arith))

last_is-containers : (root : Str) (up : List Str) → last_is (containers root up) root ≡ true
unfolding containers
last_is-containers root [] = str_eq_self root
last_is-containers root (name ∷ []) = str_eq_self root
last_is-containers root (name ∷ s ∷ up) = last_is-containers root (s ∷ up)

-- The names alone make the text longer than the loop has rounds.
length-container :
    (root : Str) (up : List Str) → All IsName up → length up ≤ length (container root up)
unfolding container
length-container root [] h = omega arith
length-container root (name ∷ up) (n, h) = omega (
  arith,
  length-container root up h,
  length-append (container root up) name,
  length-append (container root up ++ name) (codes "/"),
)

length-name : (name : Str) → name ≢ [] → 0 < length name
length-name [] h = absurd (h refl)
length-name (c ∷ name) h = omega arith

str_eq-longer : (s t : Str) → byte_len t < byte_len s → str_eq s t ≡ false
str_eq-longer s t h = elim (Bool-cases (str_eq s t)) [
  | inl same ↦ absurd (omega (arith, ap byte_len ((str_eq_iff s t).0 same)))
  | inr other ↦ other
]

root_case : (base_url : Str) → ancestors_nearest_first base_url (root_of base_url) ≡ []
unfolding ancestors_nearest_first
root_case base_url = rw (str_eq_self (root_of base_url)) refl

ancestors_of_loop :
    (base_url resource current : Str) (up : List Str)
    → byte_len (root_of base_url) < byte_len resource
    → without_suffix (strip_suffix resource (codes "/")) resource ≡ current
    → ancestors_loop (length resource) (root_of base_url) current ≡ containers (root_of base_url) up
    → ancestors_nearest_first base_url resource ≡ containers (root_of base_url) up
unfolding ancestors_nearest_first root_of
ancestors_of_loop base_url resource current up longer same loop =
    rw (str_eq-longer resource (root_of base_url) longer)
      (rw same (rw loop (rw (last_is-containers (root_of base_url) up) refl)))

-- The ancestors of a document, and of a container, are the containers that it lies in, the nearest
-- first and the root last; the root has none.
pub ancestors-containers :
    (base_url : Str) (up : List Str) (name : Str)
    → All IsName up
    → IsName name
    → (ancestors_nearest_first base_url (container (root_of base_url) up ++ name)
        ≡ containers (root_of base_url) up)
      × (ancestors_nearest_first base_url (container (root_of base_url) (name ∷ up))
          ≡ containers (root_of base_url) up)
      × (ancestors_nearest_first base_url (root_of base_url) ≡ [])
unfolding root_of container
ancestors-containers base_url up name ups n =
    let root = root_of base_url in
    let b = trim_end_matches b'/' base_url in
    let dir = container root up in
    let dir_le = root-le root up in
    let size = byte_len-append dir name in
    let pos = byte_len-pos name n.0 in
    let fuel = length-container root up ups in
    let some_name = length-name name n.0 in
    let len = length-append dir name in
    (
      ancestors_of_loop base_url (dir ++ name) (dir ++ name) up (omega arith)
          (rw (strip_suffix-none b'/' dir name n.0 n.1) refl)
          (loop-containers b up name (length (dir ++ name)) ups n (omega arith)),
      ancestors_of_loop base_url ((dir ++ name) ++ codes "/") (dir ++ name) up
          (omega (arith, byte_len-append (dir ++ name) (codes "/")))
          (rw (strip_suffix-append (dir ++ name) (codes "/")) refl)
          (loop-containers b up name (length ((dir ++ name) ++ codes "/")) ups n
            (omega (arith, length-append (dir ++ name) (codes "/")))),
      root_case base_url,
    )
