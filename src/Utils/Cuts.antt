-- ===== src/Utils/Cuts.antt =====
-- Strings that are cut.
use andaime.Base.{
  pos, negsuc, ℕ, ◌-◌, ◌≤◌, ◌<◌, ltb, Bool, false, ◌++◌, none, some, Text, codes, length, take,
  length-append, length-take, if◌then◌else◌, ◌≡◌, refl, ◌∙◌, ap, arith, Bool-cases, inl, inr,
}
use andaime.Utils.{truncate_string, generate_unique_name, slice, short, cut_name, named}

-- A limit of at least three bytes cuts a longer string to exactly that many bytes, and leaves every
-- other string; a limit of less than three panics on every longer string, and a negative one on
-- every string.
pub length-truncate_string :
    (s : Text) (max_length : ℕ)
    → (length s ≤ max_length → truncate_string s (pos max_length) ≡ some s)
      × (max_length < length s → max_length < 3 → truncate_string s (pos max_length) ≡ none)
      × (max_length < length s
          → 3 ≤ max_length
          → (t : Text) × (truncate_string s (pos max_length) ≡ some (t ++ codes "..."))
            × (length (t ++ codes "...") ≡ max_length)
            × (t ≡ take (max_length - 3) s))
      × (truncate_string s (negsuc max_length) ≡ none)
unfolding truncate_string
length-truncate_string s n = (
  λ h. ground arith,
  λ h k. ground arith,
  λ h k. (
    take (n - 3) s,
    ground arith,
    omega (arith, length-append (take (n - 3) s) (codes "..."), length-take (n - 3) s, h, k),
    refl,
  ),
  refl,
)

length-short : (id : Text) → length (short id) ≤ 4
length-short id = elim (Bool-cases (ltb 4 (length id))) [
  | inl e ↦ rw e (omega (arith, length-take 4 id))
  | inr e ↦ rw e (ground arith)
]

-- From a short id of at least four bytes a name is made of at most 17 bytes, so the last cut, to
-- 19 bytes, never happens: the name is the two shortened ids and four bytes of the short id, with
-- dashes between them.
pub generate_unique_name_bound :
    (project_id unique_id id : Text)
    → 4 ≤ length id
    → let name =
        codes "vm-"
        ++ (short project_id ++ (codes "-" ++ (short unique_id ++ (codes "-" ++ take 4 id)))) in
      (generate_unique_name project_id unique_id id ≡ some name) × (length name ≤ 17)
unfolding generate_unique_name
generate_unique_name_bound p u id h =
    let name = codes "vm-" ++ (short p ++ (codes "-" ++ (short u ++ (codes "-" ++ take 4 id)))) in
    let bound : length name ≤ 17 = omega (
      arith,
      length-append (short p) (codes "-" ++ (short u ++ (codes "-" ++ take 4 id))),
      length-append (short u) (codes "-" ++ take 4 id),
      length-take 4 id,
      length-short p,
      length-short u,
    ) in
    let sliced : slice 4 id ≡ some (take 4 id) = ground arith in
    let whole : ltb 19 (length name) ≡ false = ground (arith, bound) in
    (
      ap (λ o. cut_name (named (short p) (short u) o)) sliced
          ∙ ap (λ (b : Bool). some (if b then take 19 name else name)) whole,
      bound,
    )
