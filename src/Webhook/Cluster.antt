-- ===== src/Webhook/Cluster.antt =====
-- The package revisions of one namespace under the requests that the v1alpha2 webhook allows. A
-- request is validated with the repositories and the list that its own reader gives: the cache of the
-- manager (config.go), which may be behind what is stored.
use porch.Common.{
  true, ◌≡◌, ◌≢◌, inl, inr, refl, sym, ◌∙◌, Text, List, [], ◌∷◌, ◌++◌, Memᴰ, none, some, All,
  some-injective, subst,
}
use porch.PackageRevision.{PackageRevision}
use porch.Webhook.Validator.{Reader, GetResult, validate_create, validate_update, validate_delete}
use porch.Webhook.Updates.{webhook_update_iff}
use porch.Webhook.Creation.{SharesWorkspace, IsFree, validate_create_iff}

-- A reader that lists the revisions `seen`, and has any repositories.
abbrev pub serving : (Text → Text → GetResult) → List PackageRevision → Reader
serving repositories seen = record {
  get_repository = repositories;
  list_revisions = λ namespace. some seen;
}

-- One allowed request, or the removal of an object whose last finalizer such an update takes. The API
-- server gives a new object the name of no other one, and an update leaves it. A deletion marks an
-- object that has finalizers.
pub data Request (before after : List PackageRevision) : Type 0 where
  create :
      (repositories : Text → Text → GetResult) (seen : List PackageRevision) (pr : PackageRevision)
      → ((p : PackageRevision) → Memᴰ p before → p.name ≢ pr.name)
      → validate_create (serving repositories seen) pr ≡ none
      → after ≡ pr ∷ before
      → Request before after
  update :
      (front back : List PackageRevision) (old new : PackageRevision)
      → before ≡ front ++ (old ∷ back)
      → old.name ≡ new.name
      → validate_update old new ≡ none
      → after ≡ front ++ (new ∷ back)
      → Request before after
  release :
      (front back : List PackageRevision) (old new : PackageRevision)
      → before ≡ front ++ (old ∷ back)
      → old.deleting ≡ true
      → validate_update old new ≡ none
      → after ≡ front ++ back
      → Request before after
  mark :
      (repositories : Text → Text → GetResult) (seen : List PackageRevision)
      (front back : List PackageRevision) (pr : PackageRevision)
      → before ≡ front ++ (pr ∷ back)
      → validate_delete (serving repositories seen) pr ≡ none
      → after ≡ front ++ (record pr { deleting = true } ∷ back)
      → Request before after
  delete :
      (repositories : Text → Text → GetResult) (seen front back : List PackageRevision)
      (pr : PackageRevision)
      → before ≡ front ++ (pr ∷ back)
      → validate_delete (serving repositories seen) pr ≡ none
      → after ≡ front ++ back
      → Request before after

-- The list has the revision, perhaps as it was before some updates.
abbrev pub IsSeen : List PackageRevision → PackageRevision → Type 0
IsSeen seen p = (q : PackageRevision) × Memᴰ q seen × (q.name ≡ p.name) × SharesWorkspace q p

-- A creation was validated with a list that has every stored revision.
abbrev pub IsUpToDate : {before after : List PackageRevision} → Request before after → Type 0
IsUpToDate {before} (create repositories seen pr n v e) =
    (p : PackageRevision) → Memᴰ p before → IsSeen seen p
IsUpToDate _ = Unit

pub data Requests (start : List PackageRevision) : List PackageRevision → Type 0 where
  here : Requests start start
  next :
      {b c : List PackageRevision}
      → Requests start b
      → (q : Request b c) → IsUpToDate q
      → Requests start c

abbrev pub Differ : PackageRevision → PackageRevision → Type 0
Differ a b = ¬ SharesWorkspace a b

-- No two revisions of the list share a workspace.
abbrev pub AreDistinct : List PackageRevision → Type 0
AreDistinct [] = Unit
AreDistinct (p ∷ ps) = All (Differ p) ps × AreDistinct ps

SharesWorkspace-sym : {a b : PackageRevision} → SharesWorkspace a b → SharesWorkspace b a
SharesWorkspace-sym s = record {
  repository = sym s.repository;
  package_name = sym s.package_name;
  workspace = sym s.workspace;
}

SharesWorkspace-trans :
    {a b c : PackageRevision} → SharesWorkspace a b → SharesWorkspace b c → SharesWorkspace a c
SharesWorkspace-trans s t = record {
  repository = s.repository ∙ t.repository;
  package_name = s.package_name ∙ t.package_name;
  workspace = s.workspace ∙ t.workspace;
}

All-replace :
    (p old new : PackageRevision) (front back : List PackageRevision)
    → SharesWorkspace old new
    → All (Differ p) (front ++ (old ∷ back))
    → All (Differ p) (front ++ (new ∷ back))
All-replace p old new [] back s h =
    (λ t. h.0 (SharesWorkspace-trans t (SharesWorkspace-sym s)), h.1)
All-replace p old new (q ∷ front) back s h = (h.0, All-replace p old new front back s h.1)

All-from :
    (a b : PackageRevision) (ps : List PackageRevision)
    → SharesWorkspace a b
    → All (Differ a) ps
    → All (Differ b) ps
All-from a b [] s h = tt
All-from a b (p ∷ ps) s h = (λ t. h.0 (SharesWorkspace-trans s t), All-from a b ps s h.1)

AreDistinct-replace :
    (old new : PackageRevision) (front back : List PackageRevision)
    → SharesWorkspace old new
    → AreDistinct (front ++ (old ∷ back))
    → AreDistinct (front ++ (new ∷ back))
AreDistinct-replace old new [] back s h = (All-from old new back s h.0, h.1)
AreDistinct-replace old new (q ∷ front) back s h =
    (All-replace q old new front back s h.0, AreDistinct-replace old new front back s h.1)

All-drop :
    (p pr : PackageRevision) (front back : List PackageRevision)
    → All (Differ p) (front ++ (pr ∷ back))
    → All (Differ p) (front ++ back)
All-drop p pr [] back h = h.1
All-drop p pr (q ∷ front) back h = (h.0, All-drop p pr front back h.1)

AreDistinct-drop :
    (pr : PackageRevision) (front back : List PackageRevision)
    → AreDistinct (front ++ (pr ∷ back))
    → AreDistinct (front ++ back)
AreDistinct-drop pr [] back h = h.1
AreDistinct-drop pr (q ∷ front) back h =
    (All-drop q pr front back h.0, AreDistinct-drop pr front back h.1)

All-tabulate :
    (pr : PackageRevision) (ps : List PackageRevision)
    → ((p : PackageRevision) → Memᴰ p ps → Differ pr p)
    → All (Differ pr) ps
All-tabulate pr [] h = tt
All-tabulate pr (p ∷ ps) h = (h p (Memᴰ.head refl), All-tabulate pr ps (λ q m. h q (Memᴰ.tail m)))

created-differs :
    (repositories : Text → Text → GetResult) (seen : List PackageRevision) (pr p : PackageRevision)
    → p.name ≢ pr.name
    → IsFree (serving repositories seen) pr
    → IsSeen seen p
    → Differ pr p
created-differs repositories seen pr p fresh f (q, m, same, shares) s =
    elim (f.none_shares q (subst (λ ps. Memᴰ q ps) (some-injective _ _ f.is_listed) m)) [
      | inl i ↦ fresh (sym same ∙ i.0)
      | inr n ↦ n (SharesWorkspace-trans shares (SharesWorkspace-sym s))
    ]

Request-AreDistinct :
    {before after : List PackageRevision} (q : Request before after)
    → IsUpToDate q
    → AreDistinct before
    → AreDistinct after
Request-AreDistinct {before} (create repositories seen pr fresh ok e) u h = rw e (
  All-tabulate pr before (λ p m.
      created-differs repositories seen pr p (fresh p m)
        ((validate_create_iff (serving repositories seen) pr).0 ok).free (u p m)),
  h,
)
Request-AreDistinct (update front back old new b n ok a) u h =
    let i = (webhook_update_iff old new).0 ok in
    rw a (
      AreDistinct-replace old new front back
        (record {
          repository = i.same_repository;
          package_name = i.same_package;
          workspace = i.same_workspace;
        })
        (rw b at h))
Request-AreDistinct (release front back old new b d ok a) u h =
    rw a (AreDistinct-drop old front back (rw b at h))
Request-AreDistinct (mark repositories seen front back pr b ok a) u h = rw a (
    AreDistinct-replace pr (record pr { deleting = true }) front back
      (record { repository = refl; package_name = refl; workspace = refl }) (rw b at h))
Request-AreDistinct (delete repositories seen front back pr b ok a) u h =
    rw a (AreDistinct-drop pr front back (rw b at h))

-- Starting from no revisions, after any allowed requests no two revisions of the namespace share
-- repository, package and workspace, if every creation was validated with a list that has each
-- revision stored before it, as it is or as it was before updates: no creations overlap, and the
-- cache that the webhook reads has caught up with the creations before.
pub Requests-AreDistinct : {after : List PackageRevision} → Requests [] after → AreDistinct after
Requests-AreDistinct here = tt
Requests-AreDistinct (next r q u) = Request-AreDistinct q u (Requests-AreDistinct r)
