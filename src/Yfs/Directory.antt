-- ===== src/Yfs/Directory.antt =====
-- The text of a directory (yfs_client.cc): each entry is a name, a colon and the number of the inode,
-- ended by a vertical bar.
use ds.Common.{
  ℕ, ◌<◌, ◌^◌, ◌≡◌, ◌≢◌, refl, sym, ap, ◌∙◌, true, false, List, [], ◌∷◌, ◌++◌, Option, none, some,
  Bytes, Map, lookup, erase, or_else, starts, subst, nat_eq, nat_Eq, bytes_Eq, ◌==◌, if◌then◌else◌,
  arith, map, All, none_of, print_nat, read_nat, is_digit, print_nat-none_of, print_nat-starts,
  read_nat-print_nat,
}
use mathlib.Core.List.{append-nil, append_assoc}
use ds.Yfs.Split.{is_in, split, ended, IsToken, split-ended, split_pair}

-- `|`
abbrev pub bar : ℕ
bar = 124

-- `:`
abbrev pub colon : ℕ
colon = 58

-- `Split(dir, "|", true, true)`
abbrev pub entries : Bytes → List Bytes
entries dir = split dir (bar ∷ []) true true

abbrev pub two : List Bytes → Option (Bytes × Bytes)
two (a ∷ b ∷ []) = some (a, b)
two _ = none

-- `Split((*it), ":", true, true)`, where it has two parts.
unfoldable pub a_pair : Bytes → Option (Bytes × Bytes)
a_pair it = two (split it (colon ∷ []) true true)

-- `yfs_client::n2i`: `unread` is what a failed `>>` leaves.
unfoldable pub n2i : ℕ → Bytes → ℕ
n2i unread n = (or_else (unread, []) (read_nat (2 ^ 64) n)).0

-- `yfs_client::filename`
abbrev pub filename : ℕ → Bytes
filename inum = print_nat inum

abbrev pub find_next : ℕ → Bytes → Option (Bytes × Bytes) → Option ℕ → Option ℕ
find_next unread name none more = more
find_next unread name (some (n, i)) more = if name == n then some (n2i unread i) else more

-- The loop of `lookup`: the number in the first entry with the name.
unfoldable pub find : ℕ → Bytes → List Bytes → Option ℕ
find unread name [] = none
find unread name (it ∷ rest) = find_next unread name (a_pair it) (find unread name rest)

abbrev pub keep_next : Bytes → Bytes → Option (Bytes × Bytes) → Bytes → Bytes
keep_next name it none more = more
keep_next name it (some (n, i)) more = if name == n then more else it ++ (bar ∷ more)

-- The loop of `unlink`: the entries that have another name.
unfoldable pub keep : Bytes → List Bytes → Bytes
keep name [] = []
keep name (it ∷ rest) = keep_next name it (a_pair it) (keep name rest)

abbrev pub dirents_next : ℕ → Option (Bytes × Bytes) → List (Bytes × ℕ) → List (Bytes × ℕ)
dirents_next unread none more = more
dirents_next unread (some (n, i)) more = (n, n2i unread i) ∷ more

-- The loop of `readDir`.
unfoldable pub dirents : ℕ → List Bytes → List (Bytes × ℕ)
dirents unread [] = []
dirents unread (it ∷ rest) = dirents_next unread (a_pair it) (dirents unread rest)

-- `oss << oldExt << fileName << ":" << fileInum << "|"`
abbrev pub appended : Bytes → Bytes → ℕ → Bytes
appended dir name inum = dir ++ (name ++ (colon ∷ (print_nat inum ++ (bar ∷ []))))

-- The text of a map from names to inode numbers.
abbrev pub entry_text : Bytes × ℕ → Bytes
entry_text (name, inum) = name ++ (colon ∷ print_nat inum)

unfoldable pub dir_text : Map Bytes ℕ → Bytes
dir_text m = ended bar (map entry_text m)

-- A name that an entry can hold, and a number of 64 bits.
pub record IsName (name : Bytes) : Type 0 where
  pub ne_nil : name ≢ []
  pub no_bar : is_in bar name ≡ false
  pub no_colon : is_in colon name ≡ false

pub record IsEntry (e : Bytes × ℕ) : Type 0 where
  pub name : IsName e.0
  pub inum : e.1 < 2 ^ 64

is_in-append :
    (d : ℕ) (v w : Bytes) → is_in d v ≡ false → is_in d w ≡ false → is_in d (v ++ w) ≡ false
unfolding is_in
is_in-append d [] w h k = k
is_in-append d (c ∷ v) w h k = ground (arith, is_in-append d v w)

is_in-none_of : (d : ℕ) (w : Bytes) → none_of (λ c. nat_eq c d) w ≡ true → is_in d w ≡ false
unfolding is_in none_of
is_in-none_of d [] h = refl
is_in-none_of d (c ∷ w) h = ground (arith, is_in-none_of d w)

is_in-print_nat : (d n : ℕ) → is_digit d ≡ false → is_in d (print_nat n) ≡ false
is_in-print_nat d n h =
    is_in-none_of d (print_nat n) (print_nat-none_of (λ c. nat_eq c d) n (λ c k. ground arith))

print_nat-ne_nil : (n : ℕ) → print_nat n ≢ []
print_nat-ne_nil n h =
    let started : false ≡ true =
      subst (λ w. starts is_digit (w ++ []) ≡ true) h (print_nat-starts n []) in
    cc

-- A printed number is read back as it was.
pub n2i-filename : (unread n : ℕ) → n < 2 ^ 64 → n2i unread (filename n) ≡ n
unfolding n2i
n2i-filename unread n h =
    let back = read_nat-print_nat (2 ^ 64) n [] h refl in
    let exact = subst (λ w. read_nat (2 ^ 64) w ≡ some (n, [])) (append-nil (print_nat n)) back in
    ap (λ (o : Option (ℕ × Bytes)). (or_else (unread, []) o).0) exact

print_nat-IsToken : (d n : ℕ) → is_digit d ≡ false → IsToken d (print_nat n)
print_nat-IsToken d n h = record { ne_nil = print_nat-ne_nil n; without = is_in-print_nat d n h }

a_pair-entry_text : (e : Bytes × ℕ) → IsEntry e → a_pair (entry_text e) ≡ some (e.0, print_nat e.1)
unfolding a_pair
a_pair-entry_text (name, inum) h = ap two (
    split_pair colon name (print_nat inum)
      (record { ne_nil = h.name.ne_nil; without = h.name.no_colon })
      (print_nat-IsToken colon inum refl))

is_in-colon : (w : Bytes) → is_in bar w ≡ false → is_in bar (colon ∷ w) ≡ false
unfolding is_in
is_in-colon w h = h

entry_text-IsToken : (e : Bytes × ℕ) → IsEntry e → IsToken bar (entry_text e)
entry_text-IsToken (name, inum) h = record {
  ne_nil = ground (arith, h.name.ne_nil);
  without =
      is_in-append bar name (colon ∷ print_nat inum) h.name.no_bar
        (is_in-colon (print_nat inum) (is_in-print_nat bar inum refl));
}

texts-IsToken : (m : Map Bytes ℕ) → All IsEntry m → All (IsToken bar) (map entry_text m)
texts-IsToken [] h = h
texts-IsToken (e ∷ m) h = (entry_text-IsToken e h.0, texts-IsToken m h.1)

-- The entries of the text are read back.
pub entries-dir_text : (m : Map Bytes ℕ) → All IsEntry m → entries (dir_text m) ≡ map entry_text m
unfolding dir_text
entries-dir_text m h = split-ended bar (map entry_text m) (texts-IsToken m h)

find_texts :
    (unread : ℕ) (name : Bytes) (m : Map Bytes ℕ)
    → All IsEntry m
    → find unread name (map entry_text m) ≡ lookup name m
unfolding find lookup
find_texts unread name [] h = refl
find_texts unread name ((n, i) ∷ m) h = ground (
  arith,
  a_pair-entry_text (n, i) h.0,
  n2i-filename unread i h.0.inum,
  find_texts unread name m h.1,
  bytes_Eq.beq_iff name n,
  bytes_Eq.beq_iff n name,
)

keep_texts :
    (name : Bytes) (m : Map Bytes ℕ)
    → All IsEntry m
    → keep name (map entry_text m) ≡ dir_text (erase name m)
unfolding keep erase dir_text ended
keep_texts name [] h = refl
keep_texts name ((n, i) ∷ m) h = ground (
  arith,
  a_pair-entry_text (n, i) h.0,
  keep_texts name m h.1,
  bytes_Eq.beq_iff name n,
  bytes_Eq.beq_iff n name,
)

dirents_texts :
    (unread : ℕ) (m : Map Bytes ℕ) → All IsEntry m → dirents unread (map entry_text m) ≡ m
unfolding dirents
dirents_texts unread [] h = refl
dirents_texts unread ((n, i) ∷ m) h = ground (
  arith,
  a_pair-entry_text (n, i) h.0,
  n2i-filename unread i h.0.inum,
  dirents_texts unread m h.1,
)

-- The loops over the text of a directory are the operations of the map that it spells.
pub find_lem :
    (unread : ℕ) (name : Bytes) (m : Map Bytes ℕ)
    → All IsEntry m
    → find unread name (entries (dir_text m)) ≡ lookup name m
find_lem unread name m h = rw (entries-dir_text m h) (find_texts unread name m h)

pub keep_lem :
    (name : Bytes) (m : Map Bytes ℕ)
    → All IsEntry m
    → keep name (entries (dir_text m)) ≡ dir_text (erase name m)
keep_lem name m h = rw (entries-dir_text m h) (keep_texts name m h)

pub dirents_lem :
    (unread : ℕ) (m : Map Bytes ℕ) → All IsEntry m → dirents unread (entries (dir_text m)) ≡ m
dirents_lem unread m h = rw (entries-dir_text m h) (dirents_texts unread m h)

pub appended_lem :
    (m : Map Bytes ℕ) (name : Bytes) (inum : ℕ)
    → appended (dir_text m) name inum ≡ dir_text (m ++ ((name, inum) ∷ []))
unfolding dir_text ended
appended_lem [] name inum = sym (append_assoc name (colon ∷ print_nat inum) (bar ∷ []))
appended_lem ((n, i) ∷ m) name inum =
    append_assoc (entry_text (n, i)) (bar ∷ dir_text m)
      (name ++ (colon ∷ (print_nat inum ++ (bar ∷ []))))
    ∙ ap (λ t. entry_text (n, i) ++ (bar ∷ t)) (appended_lem m name inum)
