-- ===== src/Json/Store/Appending.antt =====
-- Server/JSONToLeds.c: appendToCurrentSequence on statics that hold sequences.
use native.Mathlib.Numerals.{add-one}
use ledcontroller.Prelude.{
  ℕ, suc, ◌+◌, ◌%◌, ◌^◌, ◌<◌, ◌≡◌, refl, sym, ap, ◌∙◌, inl, inr, Bool, true, false, List, [], ◌∷◌,
  ◌++◌, map, some, arith, Bool-cases, ltb, ltb→lt, length, All, All-concat, length-append,
}
use ledcontroller.Led.{AddressableLed, Cell, unset, null, holds, LedSequence}
use ledcontroller.Run.{Outcome, done, fault}
use ledcontroller.Json.{JsonResult, all_ok, allocation_error, Sequences}
use ledcontroller.Json.Store.{
  free_led_sequences, resize, write_last, write_two, with_array, current, store_back, store_leds,
  store_led, append_to, append_to_current_sequence,
}
use ledcontroller.Json.Store.Arrays.{
  cells, closed, write_last-cells, write_two-cells, cells-append, get_elem?-cells,
}
use ledcontroller.Json.Store.Stored.{
  Ends, Ends-eq, Holds, freed-Holds, free-closed, out_of_memory-freed, Sequence, stored, pointers,
  IsLed, IsSequence, IsStored, freed, length-map-stored, map-stored-concat,
}
use ledcontroller.Json.Store.Pointers.{
  All-prefix, pointers-concat, resize-pointers, store_led-granted, store_led-refused,
}

abbrev pub with_led : Sequence → AddressableLed → Sequence
with_led q led = record q { leds = q.leds ++ led ∷ [] }

module _ (qs : List Sequence) (q : Sequence) (s : Sequences) (v : IsStored (qs ++ q ∷ []) s) where
  before : List LedSequence
  before = map stored qs

  not_nil : (xs : List Sequence) (x : Sequence) → xs ++ x ∷ [] ≡ [] → ⊥
  not_nil [] x e = cc
  not_nil (y ∷ xs) x e = cc

  -- The array, with the pointer to the last sequence in sight.
  extracted : s.extracted_sequences ≡ some (cells (map stored qs) (holds (stored q) ∷ null ∷ []))
  extracted = elim v.array [
    | inl e ↦
        e
        ∙ ap (λ l. some (closed l)) (map-stored-concat qs q)
        ∙ ap some (cells-append (map stored qs) (stored q) (null ∷ []))
    | inr (_, empty) ↦ absurd (not_nil qs q empty)
  ]

  number : s.number_of_sequences ≡ suc (length (map stored qs))
  number = omega (arith, v.number, length-append qs (q ∷ []), length-map-stored qs)

  current-last : current s.extracted_sequences s.number_of_sequences ≡ some (stored q)
  unfolding current
  current-last =
      rw (extracted, number)
        (rw (get_elem?-cells (map stored qs) (holds (stored q)) (null ∷ []), current))

  bounds : All IsSequence qs × IsSequence q
  bounds = All-prefix IsSequence qs q v.bounded

  -- The statics after the block of the last sequence changed.
  changed : Sequences → LedSequence → Sequences
  changed t block = record t {
    extracted_sequences = some (cells (map stored qs) (holds block ∷ null ∷ []));
  }

  free-changed :
      (t : Sequences) (block : LedSequence)
      → t.extracted_sequences ≡ some (cells (map stored qs) (holds block ∷ null ∷ []))
      → free_led_sequences t ≡ done tt (freed t)
  free-changed t block e =
      free-closed t (map stored qs ++ block ∷ []) []
        (e ∙ ap some (sym (cells-append (map stored qs) block (null ∷ []))))

  store_back-changed :
      (t : Sequences) (block : LedSequence) (k : Sequences → Outcome Sequences JsonResult)
      → t.extracted_sequences ≡ s.extracted_sequences
      → t.number_of_sequences ≡ s.number_of_sequences
      → store_back block k t ≡ k (changed t block)
  unfolding store_back with_array changed
  store_back-changed t block k e n = rw (
    e,
    n,
    extracted,
    number,
    write_last-cells (map stored qs) (holds (stored q)) (holds block) (null ∷ []),
  )

  module _ (grants : ℕ → Bool) (led : AddressableLed) where
    abbrev longer : Sequence
    longer = with_led q led

    opened : append_to_current_sequence grants led s ≡ append_to grants (stored q) led s
    unfolding append_to_current_sequence
    opened = rw (current-last, append_to_current_sequence)

    -- The statics before the second call of the allocator, and after it.
    asked_once : Sequences
    asked_once = record s { calls = s.calls + 1 }

    asked_twice : Sequences
    asked_twice = record s { calls = s.calls + 1 + 1 }

    counted : LedSequence
    counted = record (stored q) { sequence_length = suc (length q.leds) }

    length-longer : length longer.leds ≡ suc (length q.leds)
    length-longer = omega (arith, length-append q.leds (led ∷ []))

    -- The struct of the longer sequence.
    longer-stored :
        record counted { led_to_change = some (closed (q.leds ++ led ∷ [])) } ≡ stored longer
    unfolding counted
    longer-stored =
        ap
          (λ n. record (stored q) {
            sequence_length = n;
            led_to_change = some (closed (q.leds ++ led ∷ []));
          })
          (sym length-longer)
        ∙ ap
            (λ array. record (stored q) {
              sequence_length = length (q.leds ++ led ∷ []);
              led_to_change = array;
            })
            (sym (pointers-concat q.leds led))

    longer-IsStored :
        length q.leds + 1 < 2 ^ 16
        → IsLed led
        → IsStored (qs ++ longer ∷ []) (changed asked_twice (stored longer))
    unfolding changed asked_twice
    longer-IsStored few h = record {
      array = inl (
          ap some (sym (cells-append (map stored qs) (stored longer) (null ∷ [])))
          ∙ ap (λ l. some (closed l)) (sym (map-stored-concat qs longer)));
      number = number ∙ omega (arith, length-map-stored qs, length-append qs (longer ∷ []));
      room = omega (arith, v.room, length-append qs (q ∷ []), length-append qs (longer ∷ []));
      bounded =
          All-concat IsSequence qs longer bounds.0
            (bounds.1.0, omega (arith, length-longer), All-concat IsLed q.leds led bounds.1.2 h);
    }

    abbrev second : Outcome Sequences JsonResult
    second = store_led grants counted led asked_once

    roomy :
        (c : Cell AddressableLed) × (resize (suc (length q.leds) + 1) (pointers q.leds)
          ≡ cells q.leds (c ∷ unset ∷ []))
    roomy = rw (add-one (suc (length q.leds))) (resize-pointers q.leds)

    second-granted :
        grants (s.calls + 1) ≡ true → second ≡ done all_ok (changed asked_twice (stored longer))
    unfolding counted asked_once asked_twice
    second-granted granted =
        let (c, grown) = roomy in
        store_led-granted grants led counted asked_once _ _ grown granted
          (write_two-cells q.leds c unset led)
        ∙ store_back-changed asked_twice _ _ refl refl
        ∙ ap (λ block. done all_ok (changed asked_twice block)) longer-stored

    -- NULL stands where the LED should have been.
    unplaced : Sequences
    unplaced =
        changed asked_twice
          (record counted { led_to_change = some (cells q.leds (null ∷ unset ∷ [])) })

    second-refused : grants (s.calls + 1) ≡ false → second ≡ done allocation_error (freed unplaced)
    unfolding counted asked_once asked_twice unplaced changed
    second-refused refused =
        let (c, grown) = roomy in
        store_led-refused grants led counted asked_once _ _ grown refused
          (write_last-cells q.leds c null (unset ∷ []))
        ∙ store_back-changed asked_twice _ _ refl refl
        ∙ out_of_memory-freed unplaced grants (free-changed unplaced _ refl)

    -- `sequenceLength` after the increment.
    incremented : length q.leds + 1 < 2 ^ 16 → (length q.leds + 1) % 2 ^ 16 ≡ suc (length q.leds)
    incremented few = omega arith

    appended-refused :
        length q.leds + 1 < 2 ^ 16
        → grants s.calls ≡ true
        → grants (s.calls + 1) ≡ false
        → append_to_current_sequence grants led s ≡ done allocation_error (freed unplaced)
    unfolding append_to counted asked_once
    appended-refused few granted refused =
        opened ∙ rw (granted, incremented few) (second-refused refused)

    -- With the memory that it asks for, `appendToCurrentSequence` adds the LED to the last sequence
    -- and to no other, if that has fewer than 65535 LEDs.
    pub append_to_current_sequence-granted :
        length q.leds + 1 < 2 ^ 16
        → IsLed led
        → grants s.calls ≡ true
        → grants (s.calls + 1) ≡ true
        → (s' : Sequences) × (append_to_current_sequence grants led s ≡ done all_ok s')
          × IsStored (qs ++ with_led q led ∷ []) s'
    unfolding append_to counted asked_once
    append_to_current_sequence-granted few h granted granted' = (
      changed asked_twice (stored longer),
      opened ∙ rw (granted, incremented few) (second-granted granted'),
      longer-IsStored few h,
    )

    -- The count wraps to 0 in a sequence that has 65535 LEDs: the LED is written before the array.
    pub append_to_current_sequence-full :
        length q.leds + 1 ≡ 2 ^ 16
        → grants s.calls ≡ true
        → append_to_current_sequence grants led s ≡ fault
    unfolding append_to store_led store_leds write_two write_last
    append_to_current_sequence-full full granted =
        let wrapped : (length q.leds + 1) % 2 ^ 16 ≡ 0 = omega arith in
        opened ∙ rw (granted, wrapped) (ground arith)

    first-refused :
        grants s.calls ≡ false
        → (t : Sequences) × (append_to_current_sequence grants led s
            ≡ done allocation_error (freed t))
    unfolding append_to asked_once changed
    first-refused refused =
        let block = record (stored q) { sequence_length = (length q.leds + 1) % 2 ^ 16 } in
        let t = changed asked_once block in
        (
          t,
          opened
              ∙ rw refused (
                  store_back-changed asked_once _ _ refl refl
                  ∙ out_of_memory-freed t grants (free-changed t block refl)),
        )

    -- Whatever the allocator answers.
    pub append_to_current_sequence-Ends :
        IsLed led → Ends (λ r t. Holds t) (append_to_current_sequence grants led s)
    append_to_current_sequence-Ends h = elim (Bool-cases (grants s.calls)) [
      | inr refused ↦
          let (t, e) = first-refused refused in Ends-eq (λ r t. Holds t) _ _ e (freed-Holds t)
      | inl granted ↦ (elim (Bool-cases (ltb (length q.leds + 1) (2 ^ 16))) [
        | inr full ↦
            Ends-eq (λ r t. Holds t) _ fault
              (append_to_current_sequence-full (ground (arith, bounds)) granted) tt
        | inl few ↦ (elim (Bool-cases (grants (s.calls + 1))) [
          | inl granted' ↦
              let (t, e, stays) =
                append_to_current_sequence-granted (ltb→lt _ _ few) h granted granted' in
              Ends-eq (λ r t. Holds t) _ _ e (_, stays)
          | inr refused ↦
              Ends-eq (λ r t. Holds t) _ _ (appended-refused (ltb→lt _ _ few) granted refused)
                (freed-Holds unplaced)
        ])
      ])
    ]
