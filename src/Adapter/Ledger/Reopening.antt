-- ===== src/Adapter/Ledger/Reopening.antt =====
-- What OpenDurableAdviceLedger of pkg/adapter/durable_advice_ledger.go makes of the files of a ledger.
use reinframe.Prelude.{
  true, false, ◌||◌, List, [], ◌≡◌, refl, ◌⊎◌, inl, inr, Bool-cases, ◌∙◌, arith,
}
use reinframe.Adapter.Markers.{DedupeKey, has_key, recover_markers}
use reinframe.Adapter.Ledger.{
  LedgerErr, corrupt, Disk, Ledger, Opened, opened, refused, keys, bad, ingest_lines, load_markers,
  open_ledger,
}
use reinframe.Adapter.Ledger.Reading.{lines_have, lines_valid, ingest_lines-keys, ingest_lines-bad}
use reinframe.Adapter.Ledger.Marking.{
  is_migrated, loaded_have, markers_have, strays_have, markers_valid, load_markers-keys,
  load_markers-bad, loaded_have-found, markers_have-loaded,
}

-- The log can be read again, and with the markers in place it holds the keys of the memory.
pub record IsKept (l : Ledger) : Type 0 where
  pub closed : l.disk.torn ≡ false
  pub lines : lines_valid l.disk.lines ≡ true
  pub same :
      (k : DedupeKey)
      → has_key k l.seen ≡ (lines_have k l.disk.lines || markers_have k l.disk.markers)

-- A torn end or a line that does not decode.
abbrev pub IsBroken : Ledger → Type 0
IsBroken l = (l.disk.torn ≡ true) ⊎ (lines_valid l.disk.lines ≡ false)

-- The ledger is kept, and each of its markers loads.
abbrev pub IsWhole : Ledger → Type 0
IsWhole l = IsKept l × (markers_valid l.disk.markers ≡ true)

-- The key is in the log, or its marker is not taken for an old one.
abbrev pub IsLasting : Ledger → DedupeKey → Type 0
IsLasting l k = (lines_have k l.disk.lines ≡ true) ⊎ (is_migrated k ≡ false)

-- What a restart may make of a ledger. It has the lasting keys, and others only from stray markers; it
-- is refused only for a torn or a malformed line or a marker that does not load.
abbrev pub Restarts : Ledger → Opened → Type 0
Restarts l (opened l') =
    ((k : DedupeKey) → has_key k l.seen ≡ true → IsLasting l k → has_key k l'.seen ≡ true)
    × ((k : DedupeKey)
        → has_key k l'.seen ≡ true
        → (has_key k l.seen ≡ true) ⊎ (strays_have k l.disk.markers ≡ true))
Restarts l (refused e) = IsBroken l ⊎ (markers_valid l.disk.markers ≡ false)

reopened : Disk → List DedupeKey → Ledger
reopened d all = record {
  disk = record d { markers = recover_markers d.markers d.markers };
  seen = all;
}

open_ledger-opened :
    (d : Disk) (seen all : List DedupeKey)
    → d.torn ≡ false
    → ingest_lines d.lines [] ≡ keys seen
    → load_markers d.markers seen ≡ keys all
    → open_ledger d ≡ opened (reopened d all)
unfolding open_ledger reopened
open_ledger-opened d seen all closed read loaded = simp (closed, read, loaded)

open_ledger-unloaded :
    (d : Disk) (seen : List DedupeKey) (e : LedgerErr)
    → d.torn ≡ false
    → ingest_lines d.lines [] ≡ keys seen
    → load_markers d.markers seen ≡ bad e
    → open_ledger d ≡ refused e
unfolding open_ledger
open_ledger-unloaded d seen e closed read failed = simp (closed, read, failed)

open_ledger-torn : (d : Disk) → d.torn ≡ true → open_ledger d ≡ refused corrupt
unfolding open_ledger
open_ledger-torn d torn = rw torn

open_ledger-bad :
    (d : Disk) (e : LedgerErr)
    → d.torn ≡ false
    → ingest_lines d.lines [] ≡ bad e
    → open_ledger d ≡ refused e
unfolding open_ledger
open_ledger-bad d e closed read = simp (closed, read)

pub open_of_whole :
    (l : Ledger)
    → IsWhole l
    → (l' : Ledger) × (open_ledger l.disk ≡ opened l') × Restarts l (opened l')
unfolding has_key reopened
open_of_whole l (w, valid) =
    let (seen, read, has) = ingest_lines-keys l.disk.lines [] w.lines in
    let (all, loaded, held) = load_markers-keys l.disk.markers seen valid in
    (
      reopened l.disk all,
      open_ledger-opened l.disk seen all w.closed read loaded,
      (
        (λ k h lasts. elim lasts [
          | inl line ↦ ground (arith, held k, has k, line)
          | inr kept ↦ elim (Bool-cases (lines_have k l.disk.lines)) [
            | inl line ↦ ground (arith, held k, has k, line)
            | inr out ↦
                let there : markers_have k l.disk.markers ≡ true =
                  ground (arith, w.same k, h, out) in
                ground (arith, held k, markers_have-loaded k l.disk.markers valid kept there)
          ]
        ]),
        (λ k h. elim (Bool-cases (lines_have k l.disk.lines)) [
          | inl line ↦ inl (w.same k ∙ rw line refl)
          | inr out ↦
              let there : loaded_have k l.disk.markers ≡ true =
                ground (arith, held k, has k, out, h) in
              elim (Bool-cases (strays_have k l.disk.markers)) [
                | inl stray ↦ inr stray
                | inr none_stray ↦
                    inl (
                      ground
                        (arith, w.same k, loaded_have-found k l.disk.markers there, none_stray))
              ]
        ]),
      ),
    )

pub open_of_unloaded :
    (l : Ledger)
    → IsKept l
    → markers_valid l.disk.markers ≡ false
    → (e : LedgerErr) × (open_ledger l.disk ≡ refused e)
open_of_unloaded l w gone =
    let (seen, read, has) = ingest_lines-keys l.disk.lines [] w.lines in
    let (e, failed) = load_markers-bad l.disk.markers seen gone in
    (e, open_ledger-unloaded l.disk seen e w.closed read failed)

pub open_of_broken : (l : Ledger) → IsBroken l → (e : LedgerErr) × (open_ledger l.disk ≡ refused e)
open_of_broken l (inl torn) = (corrupt, open_ledger-torn l.disk torn)
open_of_broken l (inr gone) = elim (Bool-cases l.disk.torn) [
  | inl torn ↦ (corrupt, open_ledger-torn l.disk torn)
  | inr closed ↦
      let (e, read) = ingest_lines-bad l.disk.lines [] gone in
      (e, open_ledger-bad l.disk e closed read)
]
