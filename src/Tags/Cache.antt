-- ===== src/Tags/Cache.antt =====
-- `tagCache` and `parseTags` of tags.go. A `reflect.Type` is a number, its place among the
-- program's types; the `sync.Map` is a list of entries. Another goroutine may fill the cache
-- between the `Load` and the `LoadOrStore`, so `parse_tags` takes the cache as each call finds it.
use godynamo.Prelude.{
  ℕ, ◌≡◌, refl, sym, ap, ◌==◌, Option, none, some, List, [], ◌∷◌, arith, All, if◌then◌else◌,
}
use godynamo.Fault.{Outcome, ok, err, panic}
use godynamo.Reflect.{StructType}
use godynamo.Tags.{ModelTags, parse_tags_fresh}

abbrev pub TypeId : Type 0
TypeId = ℕ

abbrev pub TagCache : Type 0
TagCache = List (TypeId × ModelTags)

unfoldable pub load : TypeId → TagCache → Option ModelTags
load t [] = none
load t ((u, mt) ∷ cache) = if u == t then some mt else load t cache

abbrev or_store : Option ModelTags → TypeId → ModelTags → TagCache → ModelTags × TagCache
or_store (some actual) t mt cache = (actual, cache)
or_store none t mt cache = (mt, (t, mt) ∷ cache)

unfoldable pub load_or_store : TypeId → ModelTags → TagCache → ModelTags × TagCache
unfolding load
load_or_store t mt cache = or_store (load t cache) t mt cache

module _ (types : TypeId → StructType) where
  abbrev store_fresh : TypeId → Outcome ModelTags → TagCache → Outcome ModelTags × TagCache
  store_fresh t (ok mt) later = let (actual, cache) = load_or_store t mt later in (ok actual, cache)
  store_fresh t (err e) later = (err e, later)
  store_fresh t (panic m) later = (panic m, later)

  abbrev or_parse : Option ModelTags → TypeId → TagCache → Outcome ModelTags × TagCache
  or_parse (some cached) t later = (ok cached, later)
  or_parse none t later = store_fresh t (parse_tags_fresh (types t)) later

  unfoldable pub parse_tags : TypeId → TagCache → TagCache → Outcome ModelTags × TagCache
  unfolding load load_or_store
  parse_tags t cache later = or_parse (load t cache) t later

  -- Every entry is what parsing its type gives.
  abbrev pub IsValid : TagCache → Type 0
  IsValid = All (λ (t, mt). parse_tags_fresh (types t) ≡ ok mt)

  load_of_IsValid :
      (t : TypeId) (cache : TagCache) (mt : ModelTags)
      → IsValid cache
      → load t cache ≡ some mt
      → parse_tags_fresh (types t) ≡ ok mt
  unfolding load
  load_of_IsValid t [] mt _ h = cc
  load_of_IsValid t ((u, m) ∷ cache) mt (hu, hs) h = ground (arith, load_of_IsValid t cache mt hs)

  or_store_lem :
      (t : TypeId) (mt : ModelTags) (later : TagCache) (o : Option ModelTags)
      → load t later ≡ o
      → parse_tags_fresh (types t) ≡ ok mt
      → IsValid later
      → ((or_store o t mt later).0 ≡ mt) × IsValid (or_store o t mt later).1
  or_store_lem t mt later none _ e h = (refl, (e, h))
  or_store_lem t mt later (some actual) present e h =
      (cc (load_of_IsValid t later actual h present), h)

  store_fresh_lem :
      (t : TypeId) (o : Outcome ModelTags) (later : TagCache)
      → parse_tags_fresh (types t) ≡ o
      → IsValid later
      → ((store_fresh t o later).0 ≡ o) × IsValid (store_fresh t o later).1
  unfolding load_or_store
  store_fresh_lem t (ok mt) later e h =
      let kept = or_store_lem t mt later (load t later) refl e h in (ap ok kept.0, kept.1)
  store_fresh_lem t (err x) later e h = (refl, h)
  store_fresh_lem t (panic m) later e h = (refl, h)

  or_parse_lem :
      (t : TypeId) (cache later : TagCache) (o : Option ModelTags)
      → load t cache ≡ o
      → IsValid cache
      → IsValid later
      → ((or_parse o t later).0 ≡ parse_tags_fresh (types t)) × IsValid (or_parse o t later).1
  or_parse_lem t cache later none _ h hl =
      store_fresh_lem t (parse_tags_fresh (types t)) later refl hl
  or_parse_lem t cache later (some cached) present h hl =
      (sym (load_of_IsValid t cache cached h present), hl)

  -- `parseTags` returns what parsing the type anew returns, panics included, whatever valid
  -- entries are in the cache and whatever valid entries other goroutines add meanwhile; and the
  -- cache that it leaves is valid.
  pub parse_tags-parse_tags_fresh :
      (t : TypeId) (cache later : TagCache)
      → IsValid cache
      → IsValid later
      → ((parse_tags t cache later).0 ≡ parse_tags_fresh (types t))
        × IsValid (parse_tags t cache later).1
  unfolding parse_tags
  parse_tags-parse_tags_fresh t cache later h hl =
      or_parse_lem t cache later (load t cache) refl h hl
