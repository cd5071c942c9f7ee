-- ===== src/Controller/Labels.antt =====
-- labels.go of controllers/packagerevisions/pkg/controllers/packagerevision. A patch is a parameter: it
-- says of the object whether the API server accepts it.
use porch.Common.{
  is_some, ◌||◌, Bool, true, false, not, ◌&&◌, Text, eqb, codes, List, [], ◌∷◌, Option, none, some,
  if◌then◌else◌,
}
use porch.Common.Int.{ℤ, pos, ℤ_eq, ℤ_lt}
use porch.Common.Maps.{Dict, get, get_or_empty, put}
use porch.Lifecycle.{is_published}
use porch.PackageRevision.{PackageRevision}

abbrev pub repository_key : Text
repository_key = codes "porch.kpt.dev/repository"

abbrev pub latest_key : Text
latest_key = codes "porch.kpt.dev/latest-revision"

abbrev pub labelled : Text → Text → PackageRevision → PackageRevision
labelled k v pr = record pr { labels = put k v pr.labels }

-- The object in memory and whether there was no error. A refused patch is taken back in memory.
abbrev pub patched : Bool → PackageRevision → PackageRevision → PackageRevision × Bool
patched accepted original changed = if accepted then (changed, true) else (original, false)

-- pr.Labels == nil; an object that is read has no empty map
abbrev pub is_nil : Dict → Bool
is_nil [] = true
is_nil (l ∷ ls) = false

-- The highest revision so far and its name.
abbrev pub Best : Type 0
Best = ℤ × Text

abbrev pub no_best : Best
no_best = (pos 0, [])

-- The seed of the search.
unfoldable pub in_hand : PackageRevision → Best
in_hand pr =
    if not pr.deleting && (is_published pr.spec.lifecycle && ℤ_lt (pos 0) pr.status.revision)
    then (pr.status.revision, pr.name)
    else no_best

-- revNum of the first loop
unfoldable pub seen_revision : PackageRevision → PackageRevision → ℤ
seen_revision pr rev =
    if eqb rev.name pr.name && ℤ_lt rev.status.revision pr.status.revision
    then pr.status.revision
    else rev.status.revision

-- The body of the first loop.
unfoldable pub consider : PackageRevision → Best → PackageRevision → Best
consider pr best rev =
    if rev.deleting
    then best
    else if not (is_published rev.spec.lifecycle)
    then best
    else if ℤ_eq (seen_revision pr rev) (pos 0)
    then best
    else if ℤ_lt best.0 (seen_revision pr rev)
    then (seen_revision pr rev, rev.name)
    else best

unfoldable pub consider_all : PackageRevision → Best → List PackageRevision → Best
consider_all pr best [] = best
consider_all pr best (rev ∷ revs) = consider_all pr (consider pr best rev) revs

-- The winner of the first loop.
unfoldable pub latest : PackageRevision → List PackageRevision → Best
latest pr revs = consider_all pr (in_hand pr) revs

abbrev pub desired_label : Text → PackageRevision → Text
desired_label latest_name rev = if eqb rev.name latest_name then codes "true" else codes "false"

module _ (patch : PackageRevision → Bool) where
  -- ensureRepositoryLabel
  unfoldable pub ensure_repository_label : PackageRevision → PackageRevision × Bool
  ensure_repository_label pr =
      if not (is_nil pr.labels)
        && eqb (get_or_empty repository_key pr.labels) pr.spec.repository_name
      then (pr, true)
      else patched (patch (labelled repository_key pr.spec.repository_name pr)) pr
          (labelled repository_key pr.spec.repository_name pr)

  -- ensureLatestRevisionLabel
  unfoldable pub ensure_latest_revision_label : PackageRevision → PackageRevision × Bool
  ensure_latest_revision_label pr =
      if is_some (get latest_key pr.labels)
      then (pr, true)
      else patched (patch (labelled latest_key (codes "false") pr)) pr
          (labelled latest_key (codes "false") pr)

  -- The second loop: the stored revisions after it, and whether no patch was refused. A refused one
  -- ends it.
  unfoldable pub relabel : Text → List PackageRevision → List PackageRevision × Bool
  relabel latest_name [] = ([], true)
  relabel latest_name (rev ∷ revs) =
      let (rest, ok) = relabel latest_name revs in
      if rev.deleting || eqb (get_or_empty latest_key rev.labels) (desired_label latest_name rev)
      then (rev ∷ rest, ok)
      else if patch (labelled latest_key (desired_label latest_name rev) rev)
      then (labelled latest_key (desired_label latest_name rev) rev ∷ rest, ok)
      else (rev ∷ revs, false)

  -- updateLatestRevisionLabels, on the result of the list call: the stored revisions after it, and
  -- the name of the latest one, `none` for an error
  unfoldable pub update_latest_revision_labels :
      PackageRevision → List PackageRevision → List PackageRevision × Option Text
  update_latest_revision_labels pr revs =
      let (after, ok) = relabel (latest pr revs).1 revs in
      (after, if ok then some (latest pr revs).1 else none)
