-- ===== src/Rpc/Client/Done.antt =====
-- The window of `rpcc::update_xid_rep` (rpc.cc) against the set of numbers that it stands for.
use ds.Common.{
  ℕ, ◌+◌, ◌%◌, ◌^◌, ◌≤◌, ◌<◌, ◌≡◌, refl, ap, sym, ◌∙◌, subst, Bool, true, false, ◌&&◌, ◌||◌, List,
  [], ◌∷◌, ◌++◌, nat_eq, nat_Eq, leb, ltb, arith, Bool-cases, inl, inr,
}
use mathlib.Core.List.{append-nil}
use ds.Rpc.Client.{insert_xid, pop_fronts, compress, update_xid_rep, front}

unfoldable pub has : ℕ → List ℕ → Bool
has n [] = false
has n (a ∷ w) = nat_eq n a || has n w

-- The numbers that a window stands for: those up to its front, and those in it.
abbrev pub done : ℕ → List ℕ → Bool
done n [] = false
done n (f ∷ w) = leb n f || has n w

-- The numbers ascend from a bound, and have 32 bits.
unfoldable pub ascends : ℕ → List ℕ → Bool
ascends lo [] = true
ascends lo (a ∷ w) = leb lo a && (ltb a (2 ^ 32) && ascends a w)

has-append : (n : ℕ) (v w : List ℕ) → has n (v ++ w) ≡ (has n v || has n w)
unfolding has
has-append n [] w = refl
has-append n (a ∷ v) w = ground (arith, has-append n v w)

ascends_weaken : (lo hi : ℕ) (w : List ℕ) → lo ≤ hi → ascends hi w ≡ true → ascends lo w ≡ true
unfolding ascends
ascends_weaken lo hi [] h k = refl
ascends_weaken lo hi (a ∷ w) h k = ground arith

-- In an ascending list what stands first is at most what stands behind it.
ascends_le :
    (lo : ℕ) (v : List ℕ) (it : ℕ) (w : List ℕ) → ascends lo (v ++ (it ∷ w)) ≡ true → lo ≤ it
unfolding ascends
ascends_le lo [] it w h = ground arith
ascends_le lo (a ∷ v) it w h = ground (arith, ascends_le a v it w)

pop_fronts-ascends :
    (lo it : ℕ) (v w : List ℕ)
    → ascends lo (v ++ w) ≡ true
    → ascends lo (pop_fronts it v ++ w) ≡ true
unfolding ascends pop_fronts
pop_fronts-ascends lo it [] w h = h
pop_fronts-ascends lo it (f ∷ v) w h = elim (Bool-cases (nat_eq ((f + 1) % 2 ^ 32) it)) [
  | inl e ↦
      simp e
        (pop_fronts-ascends lo it v w (ascends_weaken lo f (v ++ w) (ground arith) (ground arith)))
  | inr e ↦ simp e h
]

-- Taking a front away that is one less than a later number changes nothing.
done_pop :
    (n f lo it : ℕ) (v w : List ℕ)
    → f + 1 ≡ it
    → ascends lo (f ∷ (v ++ (it ∷ w))) ≡ true
    → done n (v ++ (it ∷ w)) ≡ done n (f ∷ (v ++ (it ∷ w)))
unfolding ascends has
done_pop n f lo it [] w e h = ground arith
done_pop n f lo it (a ∷ v) w e h = ground (arith, ascends_le a v it w)

next_eq : (f it : ℕ) → f < 2 ^ 32 → f ≤ it → nat_eq ((f + 1) % 2 ^ 32) it ≡ true → f + 1 ≡ it
next_eq f it h k e = ground arith

pop_fronts-done :
    (n lo it : ℕ) (v w : List ℕ)
    → ascends lo (v ++ (it ∷ w)) ≡ true
    → done n (pop_fronts it v ++ (it ∷ w)) ≡ done n (v ++ (it ∷ w))
unfolding pop_fronts ascends
pop_fronts-done n lo it [] w h = refl
pop_fronts-done n lo it (f ∷ v) w h = elim (Bool-cases (nat_eq ((f + 1) % 2 ^ 32) it)) [
  | inl e ↦ simp e (
      pop_fronts-done n f it v w (ground arith)
      ∙ done_pop n f lo it v w (next_eq f it (ground arith) (ascends_le f v it w (ground arith)) e)
          h)
  | inr e ↦ simp e refl
]

append_one : (v : List ℕ) (it : ℕ) (w : List ℕ) → (v ++ (it ∷ [])) ++ w ≡ v ++ (it ∷ w)
append_one [] it w = refl
append_one (a ∷ v) it w = ap (◌∷◌ a) (append_one v it w)

compress-ascends :
    (lo : ℕ) (v w : List ℕ) → ascends lo (v ++ w) ≡ true → ascends lo (compress v w) ≡ true
unfolding compress
compress-ascends lo v [] h = subst (λ l. ascends lo l ≡ true) (append-nil v) h
compress-ascends lo v (it ∷ w) h = compress-ascends lo (pop_fronts it v ++ (it ∷ [])) w (
    subst (λ l. ascends lo l ≡ true) (sym (append_one (pop_fronts it v) it w))
      (pop_fronts-ascends lo it v (it ∷ w) h))

compress-done :
    (n lo : ℕ) (v w : List ℕ) → ascends lo (v ++ w) ≡ true → done n (compress v w) ≡ done n (v ++ w)
unfolding compress
compress-done n lo v [] h = ap (done n) (sym (append-nil v))
compress-done n lo v (it ∷ w) h =
    compress-done n lo (pop_fronts it v ++ (it ∷ [])) w (
      subst (λ l. ascends lo l ≡ true) (sym (append_one (pop_fronts it v) it w))
        (pop_fronts-ascends lo it v (it ∷ w) h))
    ∙ ap (done n) (append_one (pop_fronts it v) it w)
    ∙ pop_fronts-done n lo it v w h

insert_xid-ascends :
    (lo xid : ℕ) (w : List ℕ)
    → lo ≤ xid
    → xid < 2 ^ 32
    → ascends lo w ≡ true
    → ascends lo (insert_xid xid w) ≡ true
unfolding ascends insert_xid
insert_xid-ascends lo xid [] h b k = ground arith
insert_xid-ascends lo xid (a ∷ w) h b k = ground (arith, insert_xid-ascends a xid w)

has-insert_xid : (n xid : ℕ) (w : List ℕ) → has n (insert_xid xid w) ≡ (nat_eq n xid || has n w)
unfolding has insert_xid
has-insert_xid n xid [] = refl
has-insert_xid n xid (a ∷ w) = ground (arith, has-insert_xid n xid w)

-- A window that ascends keeps ascending.
pub update_xid_rep-ascends :
    (xid : ℕ) (w : List ℕ)
    → xid < 2 ^ 32
    → ascends 0 w ≡ true
    → ascends 0 (update_xid_rep xid w) ≡ true
unfolding update_xid_rep ascends
update_xid_rep-ascends xid [] b h = h
update_xid_rep-ascends xid (f ∷ w) b h = elim (Bool-cases (leb xid f)) [
  | inl e ↦ simp e h
  | inr e ↦
      simp e (
        compress-ascends 0 (f ∷ []) (insert_xid xid w) (ground (arith, insert_xid-ascends f xid w)))
]

-- A number is put to those that the window stands for, and nothing else changes: the numbers up to the
-- front that are dropped from the window are still done. The window ascends and is
-- not empty, and the number has 32 bits.
pub update_xid_rep-done :
    (n xid f : ℕ) (w : List ℕ)
    → xid < 2 ^ 32
    → ascends 0 (f ∷ w) ≡ true
    → done n (update_xid_rep xid (f ∷ w)) ≡ (done n (f ∷ w) || nat_eq n xid)
unfolding update_xid_rep ascends
update_xid_rep-done n xid f w b h = elim (Bool-cases (leb xid f)) [
  | inl e ↦ simp e (ground arith)
  | inr e ↦ simp e (
      compress-done n 0 (f ∷ []) (insert_xid xid w) (ground (arith, insert_xid-ascends f xid w))
      ∙ ground (arith, has-insert_xid n xid w))
]

-- The front cannot move on: the next number is not done.
abbrev pub IsTight : List ℕ → Type 0
IsTight w = has (front w + 1) w ≡ false

ascends_lt :
    (lo : ℕ) (v : List ℕ) (it : ℕ) (w : List ℕ) → ascends lo (v ++ (it ∷ w)) ≡ true → it < 2 ^ 32
unfolding ascends
ascends_lt lo [] it w h = ground arith
ascends_lt lo (a ∷ v) it w h = ground (arith, ascends_lt a v it w)

-- Numbers from f to f + 1 without f + 1 are all popped by f + 1.
all_popped :
    (lo f it : ℕ) (v w : List ℕ)
    → f ≤ lo
    → has (f + 1) v ≡ false
    → ascends lo (v ++ (it ∷ w)) ≡ true
    → f + 1 ≡ it
    → pop_fronts it v ≡ []
unfolding ascends has pop_fronts
all_popped lo f it [] w a h k e = refl
all_popped lo f it (g ∷ v) w a h k e =
    ground (arith, all_popped g f it v w, ascends_le g v it w, ascends_lt g v it w)

pop_fronts-IsTight :
    (lo it : ℕ) (v w : List ℕ)
    → ascends lo (v ++ (it ∷ w)) ≡ true
    → IsTight v
    → IsTight (pop_fronts it v ++ (it ∷ []))
unfolding has pop_fronts ascends
pop_fronts-IsTight lo it [] w h t = ground arith
pop_fronts-IsTight lo it (f ∷ v) w h t = elim (Bool-cases (nat_eq ((f + 1) % 2 ^ 32) it)) [
  | inl e ↦
      let n = next_eq f it (ground arith) (ascends_le f v it w (ground arith)) e in
      let p : pop_fronts it v ≡ [] =
        all_popped f f it v w (omega arith) (ground arith) (ground arith) n in
      simp (e, p) (ground arith)
  | inr e ↦ simp e (ground (arith, has-append (f + 1) v (it ∷ []), ascends_lt f v it w))
]

compress-IsTight :
    (lo : ℕ) (v w : List ℕ) → ascends lo (v ++ w) ≡ true → IsTight v → IsTight (compress v w)
unfolding compress
compress-IsTight lo v [] h t = t
compress-IsTight lo v (it ∷ w) h t =
    compress-IsTight lo (pop_fronts it v ++ (it ∷ [])) w
      (subst (λ l. ascends lo l ≡ true) (sym (append_one (pop_fronts it v) it w))
        (pop_fronts-ascends lo it v (it ∷ w) h))
      (pop_fronts-IsTight lo it v w h t)

-- After a number is put in, the front has moved as far as it can: the next number is not done.
pub update_xid_rep-IsTight :
    (xid f : ℕ) (w : List ℕ)
    → xid < 2 ^ 32
    → ascends 0 (f ∷ w) ≡ true
    → IsTight (f ∷ w)
    → IsTight (update_xid_rep xid (f ∷ w))
unfolding update_xid_rep ascends has
update_xid_rep-IsTight xid f w b h t = elim (Bool-cases (leb xid f)) [
  | inl e ↦ simp e t
  | inr e ↦ simp e (
      compress-IsTight 0 (f ∷ []) (insert_xid xid w) (ground (arith, insert_xid-ascends f xid w))
        (ground arith))
]
