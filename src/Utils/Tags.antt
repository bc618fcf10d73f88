-- ===== src/Utils/Tags.antt =====
-- The tags of a resource.
use andaime.Base.{
  Bool, true, false, [], ◌∷◌, ◌++◌, Option, none, some, Text, codes, same, same_iff, Dict, lookup,
  lookup-insert, if◌then◌else◌, ◌≡◌, refl, arith, Option-cases, inl, inr, ◌∙◌, ap,
}
use andaime.Utils.{ensure_tag, ensure_tags}

-- The tag of the first list, or else that of the second.
abbrev pub or_default : Option Text → Option Text → Option Text
or_default none d = d
or_default (some v) d = some v

-- The tags of a resource that has none.
abbrev pub default_tags : Text → Text → Dict Text
default_tags project_id unique_id =
    (codes "andaime", codes "true")
    ∷ (codes "deployed-by", codes "andaime")
    ∷ (codes "andaime-resource-tracking", codes "true")
    ∷ (codes "unique-id", unique_id)
    ∷ (codes "project-id", project_id)
    ∷ (codes "andaime-project", unique_id ++ (codes "-" ++ project_id))
    ∷ []

kept_default :
    (key value k v : Text) (tags : Dict Text)
    → lookup key tags ≡ some v
    → lookup k tags ≡ or_default (lookup k tags) (if same key k then some value else none)
kept_default key value k v tags e = elim (Option-cases (lookup k tags)) [
  | inl h ↦ rw h (ground (arith, same_iff key k, e, h))
  | inr (w, h) ↦ rw h refl
]

or_default-none : (o : Option Text) → o ≡ or_default o none
or_default-none none = refl
or_default-none (some v) = refl

or_default_assoc :
    (o d e : Option Text) → or_default (or_default o d) e ≡ or_default o (or_default d e)
or_default_assoc none d e = refl
or_default_assoc (some v) d e = refl

lookup-ensure :
    (key value k : Text) (tags : Dict Text)
    → lookup k (ensure_tag key value tags)
      ≡ or_default (lookup k tags) (if same key k then some value else none)
unfolding ensure_tag
lookup-ensure key value k tags = elim (Option-cases (lookup key tags)) [
  | inl e ↦ rw (e, ensure_tag) (ground (arith, lookup-insert key k value tags, same_iff key k, e))
  | inr (v, e) ↦ rw (e, ensure_tag) (kept_default key value k v tags e)
]

ensure_all : Dict Text → Dict Text → Dict Text
ensure_all [] tags = tags
ensure_all ((key, value) ∷ ds) tags = ensure_all ds (ensure_tag key value tags)

default_if :
    (b : Bool) (v : Text) (o : Option Text)
    → or_default (if b then some v else none) o ≡ (if b then some v else o)
default_if true v o = refl
default_if false v o = refl

lookup-ensure_all :
    (ds tags : Dict Text) (k : Text)
    → lookup k (ensure_all ds tags) ≡ or_default (lookup k tags) (lookup k ds)
unfolding ensure_all lookup
lookup-ensure_all [] tags k = or_default-none (lookup k tags)
lookup-ensure_all ((key, value) ∷ ds) tags k =
    lookup-ensure_all ds (ensure_tag key value tags) k
    ∙ ap (λ o. or_default o (lookup k ds)) (lookup-ensure key value k tags)
    ∙ or_default_assoc (lookup k tags) (if same key k then some value else none) (lookup k ds)
    ∙ ap (or_default (lookup k tags)) (default_if (same key k) value (lookup k ds))

-- Every tag that a resource has is kept, whatever its value, each of the six tags is there
-- afterwards, with its default where it was missing, and no other tag is added.
pub lookup-ensure_tags :
    (tags : Dict Text) (project_id unique_id k : Text)
    → lookup k (ensure_tags tags project_id unique_id)
      ≡ or_default (lookup k tags) (lookup k (default_tags project_id unique_id))
unfolding ensure_tags ensure_all
lookup-ensure_tags tags project_id unique_id k =
    lookup-ensure_all (default_tags project_id unique_id) tags k
