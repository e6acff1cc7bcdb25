-- ===== src/Xbe/Cache/Make/Prepare.antt =====
-- src/core/default_xbe_cache_source.c: what the preparation of a cache leaves.
use mathlib.Core.Path.{subst}
use gdox.Common.{
  ℕ, ◌+◌, ◌-◌, ◌*◌, ◌/◌, ◌≤◌, ◌<◌, ◌≡◌, refl, sym, ◌∙◌, ◌⊎◌, inl, inr, true, false, ◌||◌,
  Bool-cases, Option-cases, none, some, List, length, ltb, ◌==◌, Image, slice, length-slice, arith,
  u64_mod, u64_max,
}
use gdox.Fault.{ErrorCode, out_of_bounds, invalid_argument, Outcome-cases, failed-ne-ok}
use gdox.Source.{sector_bytes, Source}
use gdox.Source.Image.{Serves, Reliable}
use gdox.Disc.Direct.{Malloc}
use gdox.Disc.Direct.Delivery.{Gives}
use gdox.Xdvdfs.{XdvdfsEntry, XdvdfsMetadata}
use gdox.Xbe.{patch_complete_file}
use gdox.Xbe.Whole.{length-patch_complete_file}
use gdox.Xbe.Cache.Make.{
  Prepared, no_cache, sectors_of, cache_max_bytes, load_rounds, fill_cache, prepare_entry,
  default_entry, prepare_default_xbe,
}
use gdox.Xbe.Cache.Make.Load.{rounds-Loaded}
use gdox.Xbe.Cache.Make.Planned.{planned_entry, planned, EntryFits, MetadataFits, PreparedFits}

module _ {C : Type 0} (Good : Source C → Type 0) (sectors : ℕ) (img : Image)
    (serves : Serves Good sectors img) (bounded : sectors * sector_bytes < u64_mod)
    (malloc : Malloc) (gives : Gives malloc) where
  -- A preparation leaves the partition good, gives the planned cache or nothing, and gives it where
  -- reads are reliable and `Room` holds.
  abbrev pub Prepares : Prepared → Type 0 → (ErrorCode ⊎ Prepared) × Source C → Type 0
  Prepares plan Room (prepared, s) =
      Good s
      × ((p : Prepared) → prepared ≡ inr p → (p ≡ plan) × PreparedFits sectors p)
      × (Reliable Good sectors → Room → prepared ≡ inr plan)

  abbrev plan_of : XdvdfsEntry → Prepared
  plan_of entry = record {
    bytes =
        some
          (patch_complete_file
            (slice img (entry.start_sector * sector_bytes) (sectors_of entry.size * sector_bytes))
            entry.size).1;
    start_sector = entry.start_sector;
    sectors = sectors_of entry.size;
  }

  plan_of-PreparedFits :
      (entry : XdvdfsEntry)
      → entry.start_sector + sectors_of entry.size ≤ sectors
      → PreparedFits sectors (plan_of entry)
  plan_of-PreparedFits entry inside =
      let from = entry.start_sector * sector_bytes in
      let size = sectors_of entry.size * sector_bytes in
      (
        (
          length-patch_complete_file (slice img from size) entry.size ∙ length-slice img from size,
          inside,
        ),
        omega (arith, serves.fits),
      )

  inr_same : (p q : Prepared) → ◌≡◌ {A = ErrorCode ⊎ Prepared} (inr p) (inr q) → q ≡ p
  inr_same p q e = cc

  -- A preparation that came to its plan
  prepared-Prepares :
      (plan : Prepared) (Room : Type 0) (s : Source C)
      → Good s
      → PreparedFits sectors plan
      → Prepares plan Room (inr plan, s)
  prepared-Prepares plan Room s good fits = (
    good,
    λ p e.
        let same = inr_same plan p e in (same, subst (λ q. PreparedFits sectors q) (sym same) fits),
    λ r room. refl,
  )

  -- One that failed, which it does not where reads are reliable and there is room
  failed-Prepares :
      (plan : Prepared) (Room : Type 0) (code : ErrorCode) (s : Source C)
      → Good s
      → (Reliable Good sectors → Room → ⊥)
      → Prepares plan Room (inl code, s)
  failed-Prepares plan Room code s good never =
      (good, λ p e. absurd (ground (arith, e)), λ r room. absurd (never r room))

  fill-Prepares :
      (s : Source C) (entry : XdvdfsEntry) (cache : List ℕ)
      → Good s
      → entry.start_sector + sectors_of entry.size ≤ sectors
      → length cache ≡ sectors_of entry.size * sector_bytes
      → Prepares (plan_of entry) (Unit {0}) (fill_cache s entry cache)
  unfolding fill_cache
  fill-Prepares s entry cache good inside size =
      let count = sectors_of entry.size in
      let loaded = load_rounds count s entry.start_sector count cache in
      let (good', same, reads, sure) =
        rounds-Loaded Good sectors img serves count s entry.start_sector count cache good
          (omega arith) inside size in
      elim (Outcome-cases loaded.0) [
        | inr (code, e) ↦
            rw (fill_cache, e)
              (failed-Prepares (plan_of entry) (Unit {0}) code loaded.2 good'
                (λ r room. failed-ne-ok code (sym e ∙ sure r)))
        | inl e ↦
            rw (fill_cache, e, reads e)
              (prepared-Prepares (plan_of entry) (Unit {0}) loaded.2 good'
                (plan_of-PreparedFits entry inside))
      ]

  no_cache-PreparedFits : PreparedFits sectors no_cache
  no_cache-PreparedFits = (tt, omega arith)

  no_room :
      (entry : XdvdfsEntry)
      → (entry.size == 0 || ltb cache_max_bytes entry.size) ≡ false
      → (ltb sectors entry.start_sector
          || ltb (sectors - entry.start_sector) (sectors_of entry.size)
          || ltb (u64_max / sector_bytes) (sectors_of entry.size))
        ≡ true
      → EntryFits sectors entry
      → ⊥
  no_room entry e outside room = ground (arith, e, outside, room, bounded)

  entry-Prepares :
      (s : Source C) (entry : XdvdfsEntry)
      → Good s
      → Prepares (planned_entry img entry) (EntryFits sectors entry) (prepare_entry malloc s entry)
  unfolding prepare_entry planned_entry
  entry-Prepares s entry good =
      let count = sectors_of entry.size in
      let all = serves.count s good in
      let (cache, there, size) = gives (count * sector_bytes) in
      elim (Bool-cases (entry.size == 0 || ltb cache_max_bytes entry.size)) [
        | inl e ↦
            rw (e)
              (prepared-Prepares no_cache (EntryFits sectors entry) s good no_cache-PreparedFits)
        | inr e ↦
            elim (Bool-cases (
              ltb sectors entry.start_sector
              || ltb (sectors - entry.start_sector) count
              || ltb (u64_max / sector_bytes) count)) [
                | inl outside ↦
                    rw (e, all, outside)
                      (failed-Prepares (plan_of entry) (EntryFits sectors entry) out_of_bounds s
                        good (λ r room. no_room entry e outside room))
                | inr inside ↦
                    let (good', cached, sure) =
                      fill-Prepares s entry cache good (ground (arith, inside)) size in
                    rw (e, all, inside, there) (good', cached, λ r room. sure r tt)
              ]
      ]

  nothing_named :
      (s : Source C) (metadata : XdvdfsMetadata)
      → metadata.default_xbe_index ≡ none
      → (prepare_default_xbe malloc s metadata ≡ (inr no_cache, s))
        × (planned img metadata ≡ no_cache)
  unfolding prepare_default_xbe planned
  nothing_named s metadata e = (ground (arith, e), ground (arith, e))

  entry_missing :
      (s : Source C) (metadata : XdvdfsMetadata) (index : ℕ)
      → metadata.default_xbe_index ≡ some index
      → default_entry metadata index ≡ none
      → prepare_default_xbe malloc s metadata ≡ (inl invalid_argument, s)
  unfolding prepare_default_xbe
  entry_missing s metadata index e missing = ground (arith, e, missing)

  entry_named :
      (s : Source C) (metadata : XdvdfsMetadata) (index : ℕ) (entry : XdvdfsEntry)
      → metadata.default_xbe_index ≡ some index
      → default_entry metadata index ≡ some entry
      → (prepare_default_xbe malloc s metadata ≡ prepare_entry malloc s entry)
        × (planned img metadata ≡ planned_entry img entry)
  unfolding prepare_default_xbe planned
  entry_named s metadata index entry e found = (ground (arith, e, found), ground (arith, e, found))

  -- The room that the metadata has is that of its entry.
  entry_room :
      (metadata : XdvdfsMetadata) (index : ℕ) (entry : XdvdfsEntry)
      → metadata.default_xbe_index ≡ some index
      → default_entry metadata index ≡ some entry
      → MetadataFits sectors metadata
      → EntryFits sectors entry
  entry_room metadata index entry e found (inl nothing) = absurd (ground (arith, e, nothing))
  entry_room metadata index entry e found (inr (index', entry', e', found', fits)) =
      let same : index' ≡ index = ground (arith, e, e') in
      let found'' = subst (λ i. default_entry metadata i ≡ some entry') same found' in
      subst (λ x. EntryFits sectors x) (some_same entry' entry (sym found'' ∙ found)) fits
    where
      some_same : (x y : XdvdfsEntry) → some x ≡ some y → x ≡ y
      some_same x y q = cc

  no_entry :
      (metadata : XdvdfsMetadata) (index : ℕ)
      → metadata.default_xbe_index ≡ some index
      → default_entry metadata index ≡ none
      → MetadataFits sectors metadata
      → ⊥
  no_entry metadata index e missing (inl nothing) = ground (arith, e, nothing)
  no_entry metadata index e missing (inr (index', entry', e', found', fits)) =
      let same : index' ≡ index = ground (arith, e, e') in
      let found'' = subst (λ i. default_entry metadata i ≡ some entry') same found' in
      ground (arith, missing, found'')

  pub metadata-Prepares :
      (s : Source C) (metadata : XdvdfsMetadata)
      → Good s
      → Prepares
          (planned img metadata)
          (MetadataFits sectors metadata)
          (prepare_default_xbe malloc s metadata)
  metadata-Prepares s metadata good = elim (Option-cases metadata.default_xbe_index) [
    | inl e ↦
        let (prepares, plan) = nothing_named s metadata e in
        rw (prepares, plan)
          (prepared-Prepares no_cache (MetadataFits sectors metadata) s good no_cache-PreparedFits)
    | inr (index, e) ↦ elim (Option-cases (default_entry metadata index)) [
      | inl missing ↦ rw (entry_missing s metadata index e missing) (
          failed-Prepares (planned img metadata) (MetadataFits sectors metadata) invalid_argument s
            good (λ r room. no_entry metadata index e missing room))
      | inr (entry, found) ↦
          let (prepares, plan) = entry_named s metadata index entry e found in
          let (good', cached, sure) = entry-Prepares s entry good in
          rw (prepares, plan)
            (good', cached, λ r room. sure r (entry_room metadata index entry e found room))
    ]
  ]
