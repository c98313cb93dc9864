-- ===== src/Message/Construct.antt =====
-- src/genpy/src/genpy/message.py: construction, pickling and equality of messages.
mod Tests
use xc_ros.Prelude.{
  ℕ, ◌≡◌, refl, sym, ◌∙◌, ap, subst, Bool, true, false, not, ◌&&◌, ◌||◌, List, [], ◌∷◌, map, Option,
  none, some, arith, ◌==◌, ==_iff, length, if◌then◌else◌, Bool-cases, inl, inr,
}
use xc_ros.Prelude.Text.{Text, same, same_refl, mem}
use xc_ros.Prelude.Dict.{Dict, lookup, insert, has_key, lookup-insert}
use xc_ros.Prelude.Result.{Result, ok, err, ◌>>=◌, ok_injective, >>=-eq-ok}
use xc_ros.Genmsg.Spec.{are_distinct}

pub data Error : Type 0 where
  type_error attribute_error : Error

-- The values of attributes, with `None` among them, and `==` on them, by which a list and a tuple of
-- the same values are equal.
pub record Attributes : Type 1 where
  pub V : Type 0
  pub absent : V
  pub equals : V → V → Bool

module _ (values : Attributes) where
  abbrev V : Type 0
  V = values.V

  -- `setattr` over the zipped slots and values
  unfoldable pub assign : List Text → List V → Dict V → Dict V
  assign [] vs m = m
  assign (k ∷ slots) [] m = m
  assign (k ∷ slots) (v ∷ vs) m = assign slots vs (insert k v m)

  abbrev pub given : Dict V → Text → V
  given kwds k = elim (lookup k kwds) [ none ↦ values.absent | some v ↦ v ]

  -- every slot gets its keyword's value or `None`
  unfoldable pub fill : List Text → Dict V → Dict V → Dict V
  fill [] kwds m = m
  fill (k ∷ slots) kwds m = fill slots kwds (insert k (given kwds k) m)

  unfoldable pub are_slots : List Text → Dict V → Bool
  are_slots slots [] = true
  are_slots slots ((k, v) ∷ kwds) = mem k slots && are_slots slots kwds

  -- `Message.__init__`
  unfoldable pub new_message : List Text → List V → Dict V → Result Error (Dict V)
  unfolding assign fill are_slots
  new_message slots (a ∷ args) (kv ∷ kwds) = err type_error
  new_message slots (a ∷ args) [] =
      if length (a ∷ args) == length slots then ok (assign slots (a ∷ args) []) else err type_error
  new_message slots [] kwds =
      if are_slots slots kwds then ok (fill slots kwds []) else err attribute_error

  abbrev held : Option V → Result Error V
  held none = err attribute_error
  held (some v) = ok v

  abbrev pub getattr : Text → Dict V → Result Error V
  getattr k m = held (lookup k m)

  -- `__getstate__`
  unfoldable pub getstate : List Text → Dict V → Result Error (List V)
  getstate [] m = ok []
  getstate (k ∷ slots) m = do v ← getattr k m; vs ← getstate slots m; ok (v ∷ vs)

  -- `__setstate__`
  abbrev pub setstate : List Text → List V → Dict V → Dict V
  setstate = assign

  abbrev pub equal_at : Option V → Option V → Bool
  equal_at (some v) (some w) = values.equals v w
  equal_at _ _ = false

  -- `__eq__` with an instance of the same class
  unfoldable pub is_equal : List Text → Dict V → Dict V → Bool
  is_equal [] m n = true
  is_equal (k ∷ slots) m n = equal_at (lookup k m) (lookup k n) && is_equal slots m n

  -- What the slots get: the arguments, or the keywords' values and `None` elsewhere.
  abbrev pub wanted : List Text → List V → Dict V → List V
  wanted slots (a ∷ args) kwds = a ∷ args
  wanted slots [] kwds = map (given kwds) slots

  lookup-assign :
      (k : Text) (slots : List Text) (vs : List V) (m : Dict V)
      → mem k slots ≡ false
      → lookup k (assign slots vs m) ≡ lookup k m
  unfolding assign mem
  lookup-assign k [] vs m h = refl
  lookup-assign k (j ∷ slots) [] m h = refl
  lookup-assign k (j ∷ slots) (v ∷ vs) m h =
      ground (arith, lookup-assign k slots vs (insert j v m), lookup-insert j k v m)

  fill-assign :
      (slots : List Text) (kwds m : Dict V)
      → fill slots kwds m ≡ assign slots (map (given kwds) slots) m
  unfolding fill assign
  fill-assign [] kwds m = refl
  fill-assign (k ∷ slots) kwds m = fill-assign slots kwds (insert k (given kwds k) m)

  getstate-cons :
      (k : Text) (slots : List Text) (m : Dict V) (v : V) (vs : List V)
      → lookup k m ≡ some v
      → getstate slots m ≡ ok vs
      → getstate (k ∷ slots) m ≡ ok (v ∷ vs)
  unfolding getstate
  getstate-cons k slots m v vs e e' = rw (e, e') refl

  -- Distinct slots hold what is assigned to them.
  getstate-assign :
      (slots : List Text) (vs : List V) (m : Dict V)
      → are_distinct slots ≡ true
      → length vs ≡ length slots
      → getstate slots (assign slots vs m) ≡ ok vs
  unfolding assign are_distinct
  getstate-assign [] [] m h e = unfold getstate in refl
  getstate-assign [] (v ∷ vs) m h e = absurd (omega arith)
  getstate-assign (k ∷ slots) [] m h e = absurd (omega arith)
  getstate-assign (k ∷ slots) (v ∷ vs) m h e =
      getstate-cons k slots (assign slots vs (insert k v m)) v vs
        (lookup-assign k slots vs (insert k v m) (ground arith)
          ∙ (lookup-insert k k v m ∙ rw (same_refl k) refl))
        (getstate-assign slots vs (insert k v m) (ground arith) (omega arith))

  length-map : (f : Text → V) (slots : List Text) → length (map f slots) ≡ length slots
  length-map f [] = refl
  length-map f (k ∷ slots) = omega (arith, length-map f slots)

  held-some : (o : Option V) (v : V) → held o ≡ ok v → o ≡ some v
  held-some none v e = cc
  held-some (some w) v e = ap some (ok_injective w v e)

  getstate-parts :
      (k : Text) (slots : List Text) (m : Dict V) (vs : List V)
      → getstate (k ∷ slots) m ≡ ok vs
      → (v : V) × (ws : List V) × (lookup k m ≡ some v) × (getstate slots m ≡ ok ws) × (v ∷ ws ≡ vs)
  unfolding getstate
  getstate-parts k slots m vs e =
      let (v, there, e1) = >>=-eq-ok (getattr k m) e in
      let (ws, tail, whole) = >>=-eq-ok (getstate slots m) e1 in
      (v, ws, held-some (lookup k m) v there, tail, ok_injective (v ∷ ws) vs whole)

  -- Two instances with the same state are equal.
  is_equal_same :
      (slots : List Text) (m n : Dict V) (vs : List V)
      → ((v : V) → values.equals v v ≡ true)
      → getstate slots m ≡ ok vs
      → getstate slots n ≡ ok vs
      → is_equal slots m n ≡ true
  unfolding is_equal
  is_equal_same [] m n vs eq e e' = refl
  is_equal_same (k ∷ slots) m n vs eq e e' =
      let (v, ws, here, tail, whole) = getstate-parts k slots m vs e in
      let (v', ws', here', tail', whole') = getstate-parts k slots n vs e' in
      let (one, others) = cons_parts v v' ws ws' (whole ∙ sym whole') in
      let rest = is_equal_same slots m n ws eq tail (tail' ∙ ap ok (sym others)) in
      rw (here, here', rest) (subst (λ w. values.equals v w && true ≡ true) one (rw (eq v) refl))
    where
      cons_parts : (v w : V) (vs ws : List V) → v ∷ vs ≡ w ∷ ws → (v ≡ w) × (vs ≡ ws)
      cons_parts v w vs ws p = (cc, cc)

  new_message-assign :
      (slots : List Text) (args : List V) (kwds m : Dict V)
      → new_message slots args kwds ≡ ok m
      → (assign slots (wanted slots args kwds) [] ≡ m)
        × (length (wanted slots args kwds) ≡ length slots)
  unfolding new_message
  new_message-assign slots (a ∷ args) (kv ∷ kwds) m e = absurd (cc)
  new_message-assign slots (a ∷ args) [] m e =
      elim (Bool-cases (length (a ∷ args) == length slots)) [
        | inl fits ↦ (ok_injective _ m (rw fits at e), (==_iff _ _).0 fits)
        | inr short ↦ absurd (cc (rw short at e))
      ]
  new_message-assign slots [] kwds m e = elim (Bool-cases (are_slots slots kwds)) [
    | inl known ↦ (
      sym (fill-assign slots kwds []) ∙ ok_injective _ m (rw known at e),
      length-map (given kwds) slots,
    )
    | inr unknown ↦ absurd (cc (rw unknown at e))
  ]

  -- Where every value is equal to itself: a message that is constructed on distinct slots has its arguments in them, or the keywords'
  -- values and `None` elsewhere, and what any instance of its class becomes by taking its state on is
  -- equal to it.
  pub new_message_lem :
      (slots : List Text) (args : List V) (kwds m other : Dict V)
      → ((v : V) → values.equals v v ≡ true)
      → are_distinct slots ≡ true
      → new_message slots args kwds ≡ ok m
      → (getstate slots m ≡ ok (wanted slots args kwds))
        × (is_equal slots m (setstate slots (wanted slots args kwds) other) ≡ true)
  new_message_lem slots args kwds m other eq h e =
      let (made, fits) = new_message-assign slots args kwds m e in
      let state =
        subst (λ n. getstate slots n ≡ ok (wanted slots args kwds)) made
          (getstate-assign slots (wanted slots args kwds) [] h fits) in
      (
        state,
        is_equal_same slots m _ (wanted slots args kwds) eq state
            (getstate-assign slots (wanted slots args kwds) other h fits),
      )
