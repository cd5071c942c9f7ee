-- ===== src/Controller/Relabelling.antt =====
-- What updateLatestRevisionLabels (labels.go) leaves on the stored revisions.
use porch.Common.{
  Bool, true, ◌||◌, ◌≡◌, ◌⊎◌, inl, inr, refl, sym, ap, subst, ◌∙◌, arith, Text, eqb, eqb_iff,
  eqb_refl, eqb→eq, List, [], ◌∷◌, Option, some, some-injective, Bool-cases, map, All,
}
use porch.Common.Maps.{Dict, get_or_empty, put, remove, get-put, remove-put}
use porch.PackageRevision.{PackageRevision}
use porch.Controller.Labels.{
  latest_key, labelled, desired_label, consider, consider_all, latest, relabel,
  update_latest_revision_labels, seen_revision, Best,
}

-- The revision without its latest-revision label.
abbrev pub unlabelled : PackageRevision → PackageRevision
unlabelled rev = record rev { labels = remove latest_key rev.labels }

abbrev pub latest_label : PackageRevision → Text
latest_label rev = get_or_empty latest_key rev.labels

-- A revision that is not being deleted has the label that the name of the latest one asks for.
abbrev pub HasLabel : Text → PackageRevision → Type 0
HasLabel name rev = (rev.deleting ≡ true) ⊎ (latest_label rev ≡ desired_label name rev)

get-put_same : (k v : Text) (m : Dict) → get_or_empty k (put k v m) ≡ v
unfolding get_or_empty
get-put_same k v m = rw (get-put k k v m, eqb_refl k) refl

module _ (patch : PackageRevision → Bool) (name : Text) where
  record Relabelled (before after : List PackageRevision) : Type 0 where
    labels_set : All (HasLabel name) after
    else_unchanged : map unlabelled after ≡ map unlabelled before

  -- Nothing is to be done for the revision.
  abbrev settled : PackageRevision → Bool
  settled rev = rev.deleting || eqb (latest_label rev) (desired_label name rev)

  abbrev relabelled : PackageRevision → PackageRevision
  relabelled rev = labelled latest_key (desired_label name rev) rev

  settled-HasLabel : (rev : PackageRevision) → settled rev ≡ true → HasLabel name rev
  settled-HasLabel rev h = elim (Bool-cases rev.deleting) [
    | inl d ↦ inl d
    | inr d ↦ inr (eqb→eq (latest_label rev) (desired_label name rev) (ground arith))
  ]

  HasLabel-settled : (rev : PackageRevision) → HasLabel name rev → settled rev ≡ true
  HasLabel-settled rev (inl d) = ground arith
  HasLabel-settled rev (inr l) = ground (arith, eqb_iff (latest_label rev) (desired_label name rev))

  keep-Relabelled :
      {rev : PackageRevision} {revs rest : List PackageRevision}
      → settled rev ≡ true
      → Relabelled revs rest
      → Relabelled (rev ∷ revs) (rev ∷ rest)
  keep-Relabelled {rev} e r = record {
    labels_set = (settled-HasLabel rev e, r.labels_set);
    else_unchanged = ap (λ l. unlabelled rev ∷ l) r.else_unchanged;
  }

  put-Relabelled :
      {rev : PackageRevision} {revs rest : List PackageRevision}
      → Relabelled revs rest
      → Relabelled (rev ∷ revs) (relabelled rev ∷ rest)
  put-Relabelled {rev} {revs} r = record {
    labels_set = (inr (get-put_same latest_key (desired_label name rev) rev.labels), r.labels_set);
    else_unchanged =
        ap (λ l. unlabelled (relabelled rev) ∷ l) r.else_unchanged
        ∙ ap (λ (m : Dict). (record rev { labels = m }) ∷ map unlabelled revs)
            (remove-put latest_key (desired_label name rev) rev.labels);
  }

  relabel-Relabelled :
      (revs : List PackageRevision)
      → (relabel patch name revs).1 ≡ true
      → Relabelled revs (relabel patch name revs).0
  unfolding relabel
  relabel-Relabelled [] h = record { labels_set = tt; else_unchanged = refl }
  relabel-Relabelled (rev ∷ revs) h = elim (Bool-cases (settled rev)) [
    | inl e ↦ simp e (keep-Relabelled e (relabel-Relabelled revs (simp e at h)))
    | inr e ↦ elim (Bool-cases (patch (relabelled rev))) [
      | inl a ↦ simp (e, a) (put-Relabelled (relabel-Relabelled revs (simp (e, a) at h)))
      | inr a ↦ cc (simp (e, a) at h)
    ]
  ]

  -- A settled list is left as it is, without a patch.
  relabel_settled :
      (revs : List PackageRevision)
      → All (HasLabel name) revs
      → relabel patch name revs ≡ (revs, true)
  unfolding relabel
  relabel_settled [] h = refl
  relabel_settled (rev ∷ revs) h = simp (HasLabel-settled rev h.0, relabel_settled revs h.1) refl

-- The search for the latest revision does not look at the label.
consider_all-unlabelled :
    (pr : PackageRevision) (best : Best) (revs : List PackageRevision)
    → consider_all pr best (map unlabelled revs) ≡ consider_all pr best revs
unfolding consider_all consider seen_revision
consider_all-unlabelled pr best [] = refl
consider_all-unlabelled pr best (rev ∷ revs) =
    consider_all-unlabelled pr (consider pr best rev) revs

latest_same :
    (pr : PackageRevision) (revs after : List PackageRevision)
    → map unlabelled after ≡ map unlabelled revs
    → latest pr after ≡ latest pr revs
unfolding latest
latest_same pr revs after e =
    sym (consider_all-unlabelled pr _ after)
    ∙ ap (consider_all pr _) e
    ∙ consider_all-unlabelled pr _ revs

-- What a call without an error leaves: the name of the latest revision is returned, every revision
-- that is not being deleted is labelled true if it has that name and false otherwise, and nothing but
-- this label has changed.
pub record IsLabelled (pr : PackageRevision) (before after : List PackageRevision) (name : Text)
    : Type 0 where
  pub is_latest : name ≡ (latest pr before).1
  pub labels_set : All (HasLabel name) after
  pub else_unchanged : map unlabelled after ≡ map unlabelled before

-- A call of updateLatestRevisionLabels that returns a name labels the listed revisions: those not
-- being deleted are labelled true if they have this name, which is the latest revision's, and false
-- otherwise; nothing but this label changes.
pub update-IsLabelled :
    (patch : PackageRevision → Bool) (pr : PackageRevision) (revs : List PackageRevision)
    (name : Text)
    → (update_latest_revision_labels patch pr revs).1 ≡ some name
    → IsLabelled pr revs (update_latest_revision_labels patch pr revs).0 name
unfolding update_latest_revision_labels
update-IsLabelled patch pr revs name h =
    elim (Bool-cases (relabel patch (latest pr revs).1 revs).1) [
      | inl e ↦
          let is_name = some-injective _ _ (simp e at h) in
          let r = relabel-Relabelled patch (latest pr revs).1 revs e in
          record {
            is_latest = sym is_name;
            labels_set =
                subst (λ n. All (HasLabel n) (relabel patch (latest pr revs).1 revs).0) is_name
                  r.labels_set;
            else_unchanged = r.else_unchanged;
          }
      | inr e ↦ cc (simp e at h)
    ]

-- After a call that returned a name, the next call with the same revision in hand returns that name
-- and leaves every revision as it is, even if the API server refuses all patches.
pub update-settled :
    (patch later : PackageRevision → Bool) (pr : PackageRevision)
    (revs after : List PackageRevision) (name : Text)
    → update_latest_revision_labels patch pr revs ≡ (after, some name)
    → update_latest_revision_labels later pr after ≡ (after, some name)
update-settled patch later pr revs after name h =
    unfold update_latest_revision_labels in
    rw (same_latest, relabel_settled later name after settled_labels) refl
  where
    labelled_by : IsLabelled pr revs after name
    labelled_by =
        subst (λ l. IsLabelled pr revs l name)
          (ap (λ (q : List PackageRevision × Option Text). q.0) h)
          (update-IsLabelled patch pr revs name
            (ap (λ (q : List PackageRevision × Option Text). q.1) h))

    same_latest : (latest pr after).1 ≡ name
    same_latest =
        ap (λ (b : Best). b.1) (latest_same pr revs after labelled_by.else_unchanged)
        ∙ sym labelled_by.is_latest

    settled_labels : All (HasLabel name) after
    settled_labels = labelled_by.labels_set

relabel_accepted :
    (patch : PackageRevision → Bool) (name : Text) (revs : List PackageRevision)
    → ((p : PackageRevision) → patch p ≡ true)
    → (relabel patch name revs).1 ≡ true
unfolding relabel
relabel_accepted patch name [] a = refl
relabel_accepted patch name (rev ∷ revs) a = elim (Bool-cases (settled patch name rev)) [
  | inl e ↦ simp e (relabel_accepted patch name revs a)
  | inr e ↦ simp (e, a (relabelled patch name rev)) (relabel_accepted patch name revs a)
]

-- If the API server accepts every patch, the call returns the name of the latest revision.
pub update-returns :
    (patch : PackageRevision → Bool) (pr : PackageRevision) (revs : List PackageRevision)
    → ((p : PackageRevision) → patch p ≡ true)
    → (update_latest_revision_labels patch pr revs).1 ≡ some (latest pr revs).1
unfolding update_latest_revision_labels
update-returns patch pr revs a = rw (relabel_accepted patch (latest pr revs).1 revs a) refl
