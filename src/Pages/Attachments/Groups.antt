-- ===== src/Pages/Attachments/Groups.antt =====
-- Where each attachment is shown.
use mathlib.Core.List.{append-nil, append_assoc}
use cron_agent_dashboard.Prelude.{
  ◌≡◌, refl, sym, ap, ◌∙◌, inl, inr, Bool, true, false, ◌&&◌, ◌||◌, List, [], ◌∷◌, ◌++◌, arith,
  Text, text_eq, text_eq_iff, truthy, text_or_empty, filter, any, if◌then◌else◌, Bool-cases,
}
use cron_agent_dashboard.Api.Responses.{Attachment}
use cron_agent_dashboard.Pages.Attachments.{Group, put_attachment, group_attachments}

-- The rows of all groups under this comment
abbrev pub rows_of : Text → List Group → List Attachment
rows_of id [] = []
rows_of id ((key, rows) ∷ groups) =
    if text_eq key id then rows ++ rows_of id groups else rows_of id groups

abbrev pub has_key : Text → List Group → Bool
has_key id = any (λ g. text_eq g.0 id)

-- No two groups have one key.
abbrev pub HasUniqueKeys : List Group → Type 0
HasUniqueKeys [] = Unit
HasUniqueKeys ((key, rows) ∷ groups) = (has_key key groups ≡ false) × HasUniqueKeys groups

-- A comment that an attachment belongs to
abbrev pub linked_to : Text → Attachment → Bool
linked_to id a = truthy a.comment_id && text_eq (text_or_empty a.comment_id) id

no_rows : (id : Text) (groups : List Group) → has_key id groups ≡ false → rows_of id groups ≡ []
no_rows id [] h = refl
no_rows id ((key, rows) ∷ groups) h = ground (arith, no_rows id groups, h)

has_key-put :
    (id k : Text) (a : Attachment) (groups : List Group)
    → has_key k (put_attachment id a groups) ≡ (has_key k groups || text_eq id k)
unfolding put_attachment
has_key-put id k a [] = ground arith
has_key-put id k a ((key, rows) ∷ groups) =
    ground
      (arith, has_key-put id k a groups, text_eq_iff key id, text_eq_iff key k, text_eq_iff id k)

put-HasUniqueKeys :
    (id : Text) (a : Attachment) (groups : List Group)
    → HasUniqueKeys groups
    → HasUniqueKeys (put_attachment id a groups)
unfolding put_attachment
put-HasUniqueKeys id a [] h = (refl, tt)
put-HasUniqueKeys id a ((key, rows) ∷ groups) h = elim (Bool-cases (text_eq key id)) [
  | inl e ↦ rw e h
  | inr e ↦ rw e (
    ground (arith, h.0, has_key-put id key a groups, text_eq_iff key id, text_eq_iff id key, e),
    put-HasUniqueKeys id a groups h.1,
  )
]

rows_of-put :
    (id k : Text) (a : Attachment) (groups : List Group)
    → HasUniqueKeys groups
    → rows_of k (put_attachment id a groups)
      ≡ rows_of k groups ++ (if text_eq id k then a ∷ [] else [])
unfolding put_attachment
rows_of-put id k a [] h = refl
rows_of-put id k a ((key, rows) ∷ groups) h =
    let more = if text_eq id k then a ∷ [] else [] in
    elim (Bool-cases (text_eq key id)) [
      | inl e ↦ elim (Bool-cases (text_eq key k)) [
        | inl d ↦
            let none_left : rows_of k groups ≡ [] =
              ground (arith, h.0, d, no_rows k groups, text_eq_iff key k) in
            let same : text_eq id k ≡ true =
              ground (arith, e, d, text_eq_iff key id, text_eq_iff key k, text_eq_iff id k) in
            rw (e, d, none_left, same)
              (append-nil (rows ++ a ∷ []) ∙ ap (λ x. x ++ a ∷ []) (sym (append-nil rows)))
        | inr d ↦
            let apart : text_eq id k ≡ false =
              ground (arith, e, d, text_eq_iff key id, text_eq_iff key k, text_eq_iff id k) in
            rw (e, d, apart) (sym (append-nil (rows_of k groups)))
      ]
      | inr e ↦ elim (Bool-cases (text_eq key k)) [
        | inl d ↦
            rw (e, d, rows_of-put id k a groups h.1)
              (sym (append_assoc rows (rows_of k groups) more))
        | inr d ↦ rw (e, d) (rows_of-put id k a groups h.1)
      ]
    ]

group-rows :
    (k : Text) (groups : List Group) (attachments : List Attachment)
    → HasUniqueKeys groups
    → (rows_of k (group_attachments groups attachments)
        ≡ rows_of k groups ++ filter (linked_to k) attachments)
      × HasUniqueKeys (group_attachments groups attachments)
unfolding group_attachments
group-rows k groups [] h = (sym (append-nil (rows_of k groups)), h)
group-rows k groups (a ∷ rest) h = elim (Bool-cases (truthy a.comment_id)) [
  | inl e ↦
      let id = text_or_empty a.comment_id in
      let (r, u) =
        group-rows k (put_attachment id a groups) rest (put-HasUniqueKeys id a groups h) in
      let later = filter (linked_to k) rest in
      let step : rows_of k (put_attachment id a groups) ++ later
          ≡ rows_of k groups ++ (if text_eq id k then a ∷ later else later) =
        rw (rows_of-put id k a groups h) (elim (Bool-cases (text_eq id k)) [
          | inl d ↦ rw d (append_assoc (rows_of k groups) (a ∷ []) later)
          | inr d ↦ rw d (append_assoc (rows_of k groups) [] later)
        ]) in
      rw e (r ∙ step, u)
  | inr e ↦ rw e (group-rows k groups rest h)
]

-- No two groups have one comment, and the groups of a comment hold exactly its attachments, in their order.
pub group_attachments_lem :
    (k : Text) (attachments : List Attachment)
    → (rows_of k (group_attachments [] attachments) ≡ filter (linked_to k) attachments)
      × HasUniqueKeys (group_attachments [] attachments)
group_attachments_lem k attachments = group-rows k [] attachments tt
