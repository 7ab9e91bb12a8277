-- ===== src/Handler/Npm/Filter.antt =====
-- filterMetadata of internal/handler/npm/handler.go: what the answered document holds.
use dependency_guardian.Prelude.{
  String, ◌≡◌, ◌≢◌, refl, sym, subst, ◌∙◌, ap, ◌⊎◌, inl, inr, Bool, Bool-cases, true, false, not,
  Option, none, some, List, [], ◌∷◌, eq_iff, arith, Elem, Elem-filter, mem-Elem_of, if◌then◌else◌,
  ◌==◌,
}
use dependency_guardian.Prelude.Dict.{Dict, lookup, insert, remove, lookup-insert, lookup-remove}
use dependency_guardian.Json.{Json, obj, str, of_members, members-of_members, as_string, as_object}
use dependency_guardian.Decisions.{Log}
use dependency_guardian.Handler.{Services, Base}
use dependency_guardian.Handler.Verdict.{Permits}
use dependency_guardian.Handler.Filtering.{Documents, VisitsKeys, Filtering, is_rewritten, or_empty}
use dependency_guardian.Handler.Filtering.Kept.{left_is_permitted, permitted_is_left}
use dependency_guardian.Handler.Filtering.Removed.{filter_versions-IsTracked}
use dependency_guardian.Handler.Npm.{
  npm_version, clean_dist_tags, remove_all, put_tags, put_times, changed_document, filter_loop,
  filter_metadata,
}

-- The maps of the changed document.
lookup-put_times :
    (times : Option (Dict Json)) (removed : List String) (doc : Dict Json) (k : String)
    → ("time" == k) ≡ false
    → lookup k (put_times times removed doc) ≡ lookup k doc
lookup-put_times none removed doc k other = refl
lookup-put_times (some times) removed doc k other = lookup-insert "time" k _ doc ∙ rw other refl

lookup-put_tags :
    (tags : Option (Dict Json)) (removed : List String) (doc : Dict Json) (k : String)
    → ("dist-tags" == k) ≡ false
    → lookup k (put_tags tags removed doc) ≡ lookup k doc
lookup-put_tags none removed doc k other = refl
lookup-put_tags (some tags) removed doc k other = lookup-insert "dist-tags" k _ doc ∙ rw other refl

versions-changed :
    (doc : Dict Json) (s : Filtering)
    → as_object (lookup "versions" (changed_document doc s)) ≡ some s.versions
versions-changed doc s =
    ap as_object (
      lookup-put_times (as_object (lookup "time" doc)) s.removed _ "versions" refl
      ∙ lookup-put_tags (as_object (lookup "dist-tags" doc)) s.removed _ "versions" refl
      ∙ lookup-insert "versions" "versions" (obj (of_members s.versions)) doc)
    ∙ ap some (members-of_members s.versions)

clash : {x : Bool} → x ≡ true → x ≡ false → ⊥
clash e f = cc

-- A tag that is left points to no removed version.
clean_dist_tags_clean :
    (tags : Dict Json) (removed : List String) (tag v : String)
    → Elem (tag, str v) (clean_dist_tags tags removed)
    → ¬ Elem v removed
unfolding clean_dist_tags
clean_dist_tags_clean tags removed tag v m r =
    clash (mem-Elem_of v removed r) (negated (Elem-filter _ (tag, str v) tags m).1)
  where
    negated : {x : Bool} → not x ≡ true → x ≡ false
    negated {x} h = ground arith

lookup-remove_all :
    (vers : List String) (times : Dict Json) (v : String)
    → Elem v vers ⊎ (lookup v times ≡ none)
    → lookup v (remove_all vers times) ≡ none
lookup-remove_all [] times v (inl m) = absurd m
lookup-remove_all [] times v (inr gone) = gone
lookup-remove_all (ver ∷ vers) times v (inl (inl e)) =
    lookup-remove_all vers (remove ver times) v
      (inr (lookup-remove ver v times ∙ rw ((eq_iff ver v).1 (sym e)) refl))
lookup-remove_all (ver ∷ vers) times v (inl (inr m)) =
    lookup-remove_all vers (remove ver times) v (inl m)
lookup-remove_all (ver ∷ vers) times v (inr gone) =
    lookup-remove_all vers (remove ver times) v (inr (ground (arith, lookup-remove ver v times)))

inner : {x : Dict Json} (y : Dict Json) → some x ≡ some y → x ≡ y
inner y e = cc

-- The times and the tags of a document behind the loop, where it has such a map.
times-changed :
    (times : Option (Dict Json)) (removed : List String) (doc : Dict Json) (v : String)
    → as_object (lookup "time" doc) ≡ times
    → Elem v removed
    → (found : Dict Json) → as_object (lookup "time" (put_times times removed doc)) ≡ some found
    → lookup v found ≡ none
times-changed none removed doc v same m found e = absurd (cc)
times-changed (some times) removed doc v same m found e =
    subst (λ x. lookup v x ≡ none) (inner found (sym read_back ∙ e))
      (lookup-remove_all removed times v (inl m))
  where
    read_back :
        as_object (lookup "time" (put_times (some times) removed doc))
        ≡ some (remove_all removed times)
    read_back =
        ap as_object (lookup-insert "time" "time" (obj (of_members (remove_all removed times))) doc)
        ∙ ap some (members-of_members (remove_all removed times))

tags-changed :
    (tags : Option (Dict Json)) (removed : List String) (doc : Dict Json) (tag v : String)
    → as_object (lookup "dist-tags" doc) ≡ tags
    → Elem v removed
    → (found : Dict Json) → as_object (lookup "dist-tags" (put_tags tags removed doc)) ≡ some found
    → ¬ Elem (tag, str v) found
tags-changed none removed doc tag v same m found e left = absurd (cc)
tags-changed (some tags) removed doc tag v same m found e left =
    clean_dist_tags_clean tags removed tag v
      (subst (λ x. Elem (tag, str v) x) (sym (inner found (sym read_back ∙ e))) left) m
  where
    read_back :
        as_object (lookup "dist-tags" (put_tags (some tags) removed doc))
        ≡ some (clean_dist_tags tags removed)
    read_back =
        ap as_object (
          lookup-insert "dist-tags" "dist-tags" (obj (of_members (clean_dist_tags tags removed)))
            doc)
        ∙ ap some (members-of_members (clean_dist_tags tags removed))

module _ (services : Services) (documents : Documents) (b : Base services) (body : String)
    (log : Option Log) (doc versions : Dict Json) (out : String)
    (parses : documents.unmarshal body ≡ some doc)
    (has_versions : as_object (lookup "versions" doc) ≡ some versions)
    (answers : (filter_metadata services documents b body log).0 ≡ some out) where
  abbrev name : String
  name = or_empty (as_string (lookup "name" doc))

  abbrev behind : Filtering
  behind = filter_loop services documents b doc versions log

  answered : (behind.failed ≡ false) × (documents.marshal (changed_document doc behind) ≡ some out)
  unfolding filter_metadata
  answered = unfailed (rw (parses, has_versions) at answers)
    where
      unfailed :
          (if behind.failed then none else documents.marshal (changed_document doc behind))
            ≡ some out
          → (behind.failed ≡ false) × (documents.marshal (changed_document doc behind) ≡ some out)
      unfailed h = elim (Bool-cases behind.failed) [
        | inl e ↦ absurd (ground arith)
        | inr e ↦ (e, ground arith)
      ]

  -- An answer of filterMetadata for a document with versions is a document with versions, where, for
  -- each version of the upstream's document: it is still there only if the policy permits it, with its
  -- publish time and its deprecation; and if the policy permits it and no rewrite rule turns it into
  -- another version, it is there as it was.
  pub filter_metadata_permitted :
      (v : String)
      → VisitsKeys documents
      → lookup v versions ≢ none
      → (let pv =
            npm_version services documents name
              (as_object (lookup "time" doc))
              v
              (lookup v versions) in
          (doc' kept : Dict Json) × (documents.marshal doc' ≡ some out)
          × (as_object (lookup "versions" doc') ≡ some kept)
          × (lookup v kept ≢ none → Permits services b pv)
          × ((Permits services b pv × (is_rewritten services b.rewriter "npm" name v ≡ false))
              → lookup v kept ≡ lookup v versions))
  filter_metadata_permitted v visits there =
      let version_of = npm_version services documents name (as_object (lookup "time" doc)) in
      let start : Filtering = record {
        versions = versions;
        removed = [];
        log = log;
        failed = false;
      } in
      (
        changed_document doc behind,
        behind.versions,
        answered.1,
        versions-changed doc behind,
        left_is_permitted services b "npm" name version_of (documents.iterate versions) start v
            answered.0 (visits versions v there),
        λ (p, h).
            permitted_is_left services b "npm" name version_of (documents.iterate versions) start v
              p h,
      )

  -- A version that filterMetadata removes is nowhere in the answered document: not among its
  -- versions, not among its times, and no dist-tag points to it.
  pub filter_metadata-removed :
      (v : String)
      → lookup v versions ≢ none
      → (doc' kept : Dict Json) × (documents.marshal doc' ≡ some out)
        × (as_object (lookup "versions" doc') ≡ some kept)
        × (lookup v kept ≡ none
            → ((times : Dict Json)
                → as_object (lookup "time" doc') ≡ some times
                → lookup v times ≡ none)
              × ((tags : Dict Json) (tag : String)
                  → as_object (lookup "dist-tags" doc') ≡ some tags
                  → ¬ Elem (tag, str v) tags))
  filter_metadata-removed v there = (
    changed_document doc behind,
    behind.versions,
    answered.1,
    versions-changed doc behind,
    λ gone. (
      λ times e.
          times-changed (as_object (lookup "time" doc)) behind.removed
            (put_tags (as_object (lookup "dist-tags" doc)) behind.removed document) v
            (ap as_object
              (lookup-put_tags _ behind.removed document "time" refl ∙ untouched "time" refl))
            (gone_is_removed gone) times e,
      λ tags tag e.
          tags-changed (as_object (lookup "dist-tags" doc)) behind.removed document tag v
            (ap as_object (untouched "dist-tags" refl)) (gone_is_removed gone) tags
            (sym (
                ap as_object (
                  lookup-put_times (as_object (lookup "time" doc)) behind.removed
                    (put_tags (as_object (lookup "dist-tags" doc)) behind.removed document)
                    "dist-tags" refl))
              ∙ e),
    ),
  )
    where
      document : Dict Json
      document = insert "versions" (obj (of_members behind.versions)) doc

      untouched : (k : String) → ("versions" == k) ≡ false → lookup k document ≡ lookup k doc
      untouched k other =
          lookup-insert "versions" k (obj (of_members behind.versions)) doc ∙ rw other refl

      gone_is_removed : lookup v behind.versions ≡ none → Elem v behind.removed
      gone_is_removed =
          (filter_versions-IsTracked services b "npm" name
            (npm_version services documents name (as_object (lookup "time" doc)))
            (documents.iterate versions)
            (record { versions = versions; removed = []; log = log; failed = false }) v
            ((λ gone. absurd (there gone)), λ m. absurd m)).0
