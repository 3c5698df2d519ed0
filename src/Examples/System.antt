-- ===== src/Examples/System.antt =====
-- Runs of the start-up and of the input queue.
use pokestroller.Base.{ℕ, ◌≡◌, ◌≢◌, ◌≤◌, ◌<◌, ◌↔◌, refl, arith, true, false, none, some, [], ◌∷◌}
use pokestroller.Boot.{
  FileCalls, init_walker_from_files, initialize_walker_images, copy_walker_eeprom,
}
use pokestroller.Boot.Laws.{Accepted, init_succeeds_iff, init_walker_from_files_lem, initialize_lem}
use pokestroller.Queue.{Queue, Heap, add, pop, run}
use pokestroller.Queue.Refine.{Agrees, IsMalloc, run_list, run-Agrees}
use pokestroller.Examples.{off}

-- A dump of 64 KiB for the ROM, and an EEPROM image.
abbrev dump : FileCalls
dump = record {
  seek_ok = true;
  tell = some 65536;
  read_count = 49152;
  bytes = λ i. 1;
  read_error = false;
  close_ok = true;
}

abbrev save : FileCalls
save = record {
  seek_ok = true;
  tell = some 65536;
  read_count = 65536;
  bytes = λ i. 2;
  read_error = false;
  close_ok = true;
}

init_succeeds_iff_example :
    ((init_walker_from_files (some dump) (some save) off).0 ≡ true)
    ↔ Accepted (some dump) (some save)
init_succeeds_iff_example = init_succeeds_iff (some dump) (some save) off

init_walker_from_files_lem_example :
    let (done, message, w') = init_walker_from_files none (some save) off in
    (done ≡ false → (message ≢ none) × (w' ≡ off))
    × (done ≡ true
        → (message ≡ none)
          × ((f : FileCalls) × (g : FileCalls) × (none ≡ some f)
              × (some save ≡ some g)
              × (w' ≡ initialize_walker_images f.bytes g.bytes off)))
init_walker_from_files_lem_example = init_walker_from_files_lem none (some save) off

initialize_lem_example :
    let w' = initialize_walker_images (λ i. 1) (λ i. 2) off in
    (w'.pc ≡ 0x2c4)
    × (0xbfff < 0xc000 → w'.memory 0xbfff ≡ 1)
    × (0xf780 ≤ 0xbfff → 0xbfff < 0xff80 → w'.memory 0xbfff ≡ 0)
    × (w'.memory 0xfffa ≡ 4)
    × (w'.memory 0xfffb ≡ 0)
    × (copy_walker_eeprom true 65535 w' ≡ none)
initialize_lem_example = initialize_lem (λ i. 1) (λ i. 2) off 0xbfff 65535

-- Storage for three elements.
abbrev three_places : Heap → ℕ
three_places h = elim (h 1) [
  | none ↦ 1
  | some e ↦ elim (h 2) [ none ↦ 2 | some e' ↦ elim (h 3) [ none ↦ 3 | some e'' ↦ 0 ] ]
]

three_places-IsMalloc : IsMalloc three_places
three_places-IsMalloc h = ground arith

abbrev empty_queue : Queue
empty_queue = record { first = 0; last = 0 }

abbrev no_elements : Heap
no_elements a = none

run-Agrees_example :
    Agrees
      (run three_places (add 5 ∷ add 6 ∷ pop ∷ add 7 ∷ pop ∷ []) empty_queue no_elements)
      (run_list (add 5 ∷ add 6 ∷ pop ∷ add 7 ∷ pop ∷ []) [])
run-Agrees_example =
    run-Agrees three_places (add 5 ∷ add 6 ∷ pop ∷ add 7 ∷ pop ∷ []) [] empty_queue no_elements
      three_places-IsMalloc (record { front = refl; back = refl; chain = tt })
