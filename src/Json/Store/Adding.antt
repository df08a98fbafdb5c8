-- ===== src/Json/Store/Adding.antt =====
-- Server/JSONToLeds.c: addNewSequence on statics that hold sequences.
use ledcontroller.Prelude.{
  ℕ, suc, ◌+◌, ◌-◌, ◌%◌, ◌^◌, ◌<◌, ◌≤◌, ◌≡◌, refl, sym, ap, ◌∙◌, ◌↔◌, inl, inr, Bool, true, false,
  List, [], ◌∷◌, ◌++◌, map, none, some, arith, ℤ, Bool-cases, ltb, ltb→lt, length, replicate,
  All-concat, length-append,
}
use ledcontroller.Led.{Cell, unset, null, holds, LedSequence}
use ledcontroller.Run.{Outcome, done, fault}
use ledcontroller.Json.{JsonResult, all_ok, allocation_error, Sequences}
use ledcontroller.Json.Text.{to_u16}
use ledcontroller.Json.Store.{
  resize, write_last, write_two, out_of_memory, sequence_bytes, led_bytes, store_sequence,
  add_new_sequence,
}
use ledcontroller.Json.Store.Arrays.{
  cells, closed, resize-closed, write_last-cells, write_two-cells,
}
use ledcontroller.Json.Store.Stored.{
  Ends, Ends-eq, Holds, freed-Holds, free-array, out_of_memory-freed, Sequence, stored, IsSequence,
  IsStored, freed, free-closed, length-map-stored, map-stored-concat,
}

-- A sequence without LEDs.
abbrev pub started : ℤ → Sequence
started delay = record { delay = to_u16 delay; leds = [] }

to_u16-lt : (n : ℤ) → to_u16 n < 2 ^ 16
unfolding to_u16
to_u16-lt (ℤ.pos n) = omega arith
to_u16-lt (ℤ.negsuc n) = omega arith

-- The second half of addNewSequence, by what its writes to the array give.
module _ (grants : ℕ → Bool) (pointer_bytes : ℕ) (delay : ℤ) (n : ℕ) (t : Sequences)
    (array array' : List (Cell LedSequence))
    (grown : resize ((n + 1) % 2 ^ 32) t.extracted_sequences ≡ array) where
  store_sequence-granted :
      grants t.calls ≡ true
      → sequence_bytes pointer_bytes ≤ led_bytes
      → write_two array n (holds (stored (started delay))) null ≡ some array'
      → store_sequence grants pointer_bytes delay n t
        ≡ done all_ok (record t { extracted_sequences = some array'; calls = t.calls + 1 })
  unfolding store_sequence
  store_sequence-granted granted enough written = ground arith

  store_sequence-refused :
      grants t.calls ≡ false
      → write_last array n null ≡ some array'
      → store_sequence grants pointer_bytes delay n t
        ≡ out_of_memory grants (record t { extracted_sequences = some array'; calls = t.calls + 1 })
  unfolding store_sequence
  store_sequence-refused refused written = ground arith

  store_sequence-outside :
      write_last array n null ≡ none
      → write_two array n (holds (stored (started delay))) null ≡ none
      → store_sequence grants pointer_bytes delay n t ≡ fault
  unfolding store_sequence
  store_sequence-outside outside outside' = ground arith

module _ (qs : List Sequence) (s : Sequences) (v : IsStored qs s) where
  -- The array after realloc has room for a pointer and NULL.
  resize-IsStored :
      (c : Cell LedSequence) × (resize (suc (suc (length qs))) s.extracted_sequences
        ≡ cells (map stored qs) (c ∷ unset ∷ []))
  resize-IsStored = elim v.array [
    | inl e ↦ (null, rw (e, ← length-map-stored qs) (resize-closed (map stored qs)))
    | inr (e, empty) ↦ (unset, rw (e, empty) (unfold resize in refl))
  ]

  module _ (grants : ℕ → Bool) (pointer_bytes : ℕ) (delay : ℤ) where
    added : Sequences
    added = record s {
      extracted_sequences = some (closed (map stored qs ++ stored (started delay) ∷ []));
      is_initialized = false;
      number_of_sequences = suc (length qs);
      calls = s.calls + 1 + 1;
    }

    added-IsStored : length qs + 2 < 2 ^ 32 → IsStored (qs ++ started delay ∷ []) added
    unfolding added
    added-IsStored few = record {
      array = inl (ap (λ l. some (closed l)) (sym (map-stored-concat qs (started delay))));
      number = omega (arith, length-append qs (started delay ∷ []));
      room = omega (arith, length-append qs (started delay ∷ []));
      bounded =
          All-concat IsSequence qs (started delay) v.bounded (to_u16-lt delay, omega arith, tt);
    }

    count : (s.number_of_sequences + 1) % 2 ^ 32 ≡ suc (length qs)
    count = omega (arith, v.number, v.room)

    next : length qs + 2 < 2 ^ 32 → (suc (length qs) + 1) % 2 ^ 32 ≡ suc (suc (length qs))
    next few = omega arith

    -- After the first call of the allocator, and after a refusal of the second.
    counted : Sequences
    counted = record s {
      is_initialized = false;
      number_of_sequences = suc (length qs);
      calls = s.calls + 1;
    }

    unplaced : Sequences
    unplaced = record s {
      extracted_sequences = some (cells (map stored qs) (null ∷ unset ∷ []));
      is_initialized = false;
      number_of_sequences = suc (length qs);
      calls = s.calls + 1 + 1;
    }

    abbrev second : Outcome Sequences JsonResult
    second = store_sequence grants pointer_bytes delay (suc (length qs)) counted

    second-granted :
        sequence_bytes pointer_bytes ≤ led_bytes
        → length qs + 2 < 2 ^ 32
        → grants (s.calls + 1) ≡ true
        → second ≡ done all_ok added
    unfolding counted added
    second-granted fits few granted =
        let (c, grown) = resize-IsStored in
        let written : write_two (cells (map stored qs) (c ∷ unset ∷ [])) (suc (length qs))
              (holds (stored (started delay))) null
            ≡ some (closed (map stored qs ++ stored (started delay) ∷ [])) =
          ap
            (λ n.
              write_two (cells (map stored qs) (c ∷ unset ∷ [])) (suc n)
                (holds (stored (started delay))) null)
            (sym (length-map-stored qs))
          ∙ write_two-cells (map stored qs) c unset (stored (started delay)) in
        store_sequence-granted grants pointer_bytes delay (suc (length qs)) counted _ _
          (rw (next few) grown) granted fits written

    second-refused :
        length qs + 2 < 2 ^ 32
        → grants (s.calls + 1) ≡ false
        → second ≡ done allocation_error (freed unplaced)
    unfolding counted unplaced
    second-refused few refused =
        let (c, grown) = resize-IsStored in
        let written : write_last (cells (map stored qs) (c ∷ unset ∷ [])) (suc (length qs)) null
            ≡ some (cells (map stored qs) (null ∷ unset ∷ [])) =
          ap (λ n. write_last (cells (map stored qs) (c ∷ unset ∷ [])) (suc n) null)
            (sym (length-map-stored qs))
          ∙ write_last-cells (map stored qs) c null (unset ∷ []) in
        store_sequence-refused grants pointer_bytes delay (suc (length qs)) counted _ _
          (rw (next few) grown) refused written
        ∙ out_of_memory-freed unplaced grants
            (free-closed unplaced (map stored qs) (unset ∷ []) refl)

    -- The number of entries wraps to 0.
    second-full : suc (suc (length qs)) ≡ 2 ^ 32 → second ≡ fault
    unfolding counted resize write_last write_two
    second-full full =
        store_sequence-outside grants pointer_bytes delay (suc (length qs)) counted [] []
          (rw wrapped (ap (λ n. replicate n unset) (nothing _))) (ground arith) (ground arith)
      where
        wrapped : (suc (length qs) + 1) % 2 ^ 32 ≡ 0
        wrapped = omega (arith, full)

        nothing : (n : ℕ) → 0 - n ≡ 0
        nothing n = omega arith

    second-no_room :
        led_bytes < sequence_bytes pointer_bytes → grants (s.calls + 1) ≡ true → second ≡ fault
    unfolding counted store_sequence
    second-no_room small granted = ground arith

    second-Ends : Ends (λ r t. Holds t) second
    second-Ends = elim (Bool-cases (ltb (length qs + 2) (2 ^ 32))) [
      | inr full ↦ Ends-eq _ second fault (second-full (ground (arith, v.room))) tt
      | inl few ↦ (elim (Bool-cases (grants (s.calls + 1))) [
        | inr refused ↦
            Ends-eq _ second _ (second-refused (ltb→lt _ _ few) refused) (freed-Holds unplaced)
        | inl granted ↦ (elim (Bool-cases (ltb led_bytes (sequence_bytes pointer_bytes))) [
          | inl small ↦ Ends-eq _ second fault (second-no_room (ltb→lt _ _ small) granted) tt
          | inr fits ↦
              Ends-eq _ second _ (second-granted (ground arith) (ltb→lt _ _ few) granted)
                (_, added-IsStored (ltb→lt _ _ few))
        ])
      ])
    ]

    -- With the memory that it asks for, `addNewSequence` adds a sequence without LEDs, in blocks
    -- that have room for it.
    pub add_new_sequence-granted :
        sequence_bytes pointer_bytes ≤ led_bytes
        → length qs + 2 < 2 ^ 32
        → grants s.calls ≡ true
        → grants (s.calls + 1) ≡ true
        → (s' : Sequences) × (add_new_sequence grants pointer_bytes delay s ≡ done all_ok s')
          × IsStored (qs ++ started delay ∷ []) s'
    unfolding add_new_sequence counted
    add_new_sequence-granted fits few granted granted' =
        (added, rw (count, granted) (second-granted fits few granted'), added-IsStored few)

    -- Where a pointer is too large, the sequence that is added is written past its block.
    add_new_sequence-no_room :
        led_bytes < sequence_bytes pointer_bytes
        → grants s.calls ≡ true
        → grants (s.calls + 1) ≡ true
        → add_new_sequence grants pointer_bytes delay s ≡ fault
    unfolding add_new_sequence counted
    add_new_sequence-no_room small granted granted' =
        rw (count, granted) (second-no_room small granted')

    -- With the memory that it asks for, and a count of sequences that the statics can hold,
    -- `addNewSequence` meets undefined behaviour exactly if a pointer has more than four bytes.
    pub add_new_sequence-fault_iff :
        length qs + 2 < 2 ^ 32
        → grants s.calls ≡ true
        → grants (s.calls + 1) ≡ true
        → (add_new_sequence grants pointer_bytes delay s ≡ fault) ↔ (4 < pointer_bytes)
    add_new_sequence-fault_iff few granted granted' = (
      λ faults. elim (Bool-cases (ltb 4 pointer_bytes)) [
        | inl large ↦ ltb→lt _ _ large
        | inr small ↦
            let (s', runs, _) = add_new_sequence-granted (ground arith) few granted granted' in cc
      ],
      λ large. add_new_sequence-no_room (omega (arith, large)) granted granted',
    )

    -- Whatever the allocator answers.
    pub add_new_sequence-Ends :
        Ends (λ r t. Holds t) (add_new_sequence grants pointer_bytes delay s)
    unfolding add_new_sequence counted
    add_new_sequence-Ends = elim (Bool-cases (grants s.calls)) [
      | inr refused ↦
          let s' : Sequences = record s {
            is_initialized = false;
            number_of_sequences = (s.number_of_sequences + 1) % 2 ^ 32;
            calls = s.calls + 1;
          } in
          Ends-eq (λ r t. Holds t) _ (done allocation_error (freed s'))
            (rw refused (out_of_memory-freed s' grants (free-array s' qs v.array))) (freed-Holds s')
      | inl granted ↦ rw (count, granted) second-Ends
    ]
