-- ===== src/Str/Tests.antt =====
-- Runs of lib/string.c on short texts, and its theorems at them: "ab" stands at 10 and "abc" at 20.
use advanced_operating_syste.Prelude.{
  ◌⊎◌, List, [], arith, get_or, refl, some, ℕ, ◌%◌, ◌++◌, ◌+◌, ◌-◌, ◌<◌, ◌↔◌, ◌∷◌, ◌≡◌, ◌≢◌, ◌≤◌,
}
use advanced_operating_syste.Str.Compare.{
  memcmp, memcmp-zero_iff, strcmp, strcmp-zero_iff, strcmp_comm, strncmp, strncmp-take,
}
use advanced_operating_syste.Str.Copy.{
  Copied, strcat, strcat-append, strcpy, strcpy-Copied, strlcpy, strlcpy-take, strncpy,
  strncpy-get_or,
}
use advanced_operating_syste.Str.Memory.{IsString, Memory}
use advanced_operating_syste.Str.Move.{memmove, memmove_lem, memset, memset_lem}
use advanced_operating_syste.Str.Scan.{
  memfind, memfind_first, strchr, strchr-index_of, strfind, strfind-index_of, strlen, strlen-length,
  strnlen, strnlen-min,
}
use advanced_operating_syste.Prelude.Int.{pos, negsuc}

abbrev texts : Memory
texts p = get_or (97 ∷ 98 ∷ 0 ∷ 0 ∷ 0 ∷ 0 ∷ 0 ∷ 0 ∷ 0 ∷ 0 ∷ 97 ∷ 98 ∷ 99 ∷ []) (p - 10) 0

abbrev ab : List ℕ
ab = 97 ∷ 98 ∷ []

abbrev abc : List ℕ
abc = 97 ∷ 98 ∷ 99 ∷ []

ab-IsString : IsString texts 10 ab
ab-IsString = (refl, omega arith, (refl, omega arith, refl))

abc-IsString : IsString texts 20 abc
abc-IsString = (refl, omega arith, (refl, omega arith, (refl, omega arith, refl)))

strlen_run : strlen 9 texts 20 ≡ some 3
unfolding strlen
strlen_run = refl

strcmp_run : strcmp 9 texts 10 20 ≡ some (negsuc 98)
unfolding strcmp
strcmp_run = refl

-- Without room for the NUL `strncpy` leaves none.
strncpy_run : strncpy 10 20 3 texts 13 ≡ 0
unfolding strncpy
strncpy_run = refl

memmove_run : memmove 21 20 3 texts 23 ≡ 99
unfolding memmove
memmove_run = refl

strlen_example : strlen 4 texts 20 ≡ some 3
strlen_example = strlen-length texts 20 abc 4 abc-IsString (omega arith)

strnlen_example : strnlen texts 20 2 ≡ 2
strnlen_example = strnlen-min texts 20 2 abc abc-IsString

strfind_example : strfind 4 texts 20 99 ≡ some 22
strfind_example = strfind-index_of texts 99 abc 20 4 abc-IsString (omega arith)

strchr_example : strchr 4 texts 20 0 ≡ some 0
strchr_example = strchr-index_of texts 0 abc 20 4 abc-IsString (omega arith)

memfind_example :
    let at = memfind texts 20 99 5 in
    (20 ≤ at)
    × (at ≤ 20 + 5)
    × ((p : ℕ) → 20 ≤ p → p < at → texts p ≢ 99 % 256)
    × (at < 20 + 5 → texts at ≡ 99 % 256)
memfind_example = memfind_first texts 20 99 5

strcmp-zero_example : (strcmp 3 texts 10 20 ≡ some (pos 0)) ↔ (ab ≡ abc)
strcmp-zero_example = strcmp-zero_iff texts ab abc 10 20 3 ab-IsString abc-IsString (omega arith)

strcmp_comm_example : strcmp 4 texts 20 10 ≡ some (pos 99)
unfolding strcmp
strcmp_comm_example =
    strcmp_comm texts ab abc 10 20 4 ab-IsString abc-IsString (omega arith) (omega arith) refl

strncmp_example : strncmp texts 10 20 2 ≡ pos 0
strncmp_example = strncmp-take texts ab abc 10 20 2 ab-IsString abc-IsString

memcmp_example :
    (memcmp texts 10 20 2 ≡ pos 0) ↔ ((i : ℕ) → i < 2 → texts (10 + i) ≡ texts (20 + i))
memcmp_example = memcmp-zero_iff 2 texts 10 20

strcpy_example : (g : Memory) × (strcpy 4 30 20 texts ≡ some g) × Copied texts g 30 abc
strcpy_example = strcpy-Copied abc 4 30 20 texts abc-IsString (omega arith) (omega arith)

strcat_example : (g : Memory) × (strcat 6 10 20 texts ≡ some g) × Copied texts g 10 (ab ++ abc)
strcat_example =
    strcat-append ab abc 6 10 20 texts ab-IsString abc-IsString (omega arith) (omega arith)
      (omega arith)

strncpy_example : strncpy 30 20 8 texts 36 ≡ 0
strncpy_example = strncpy-get_or 8 abc 30 20 texts 36 abc-IsString (omega arith)

abbrev three : ℕ
three = 3

strlcpy_example :
    (g : Memory) × (strlcpy 30 20 3 texts ≡ (2, g))
    × (((three ≡ 0) × ((p : ℕ) → g p ≡ texts p)) ⊎ ((0 < three) × Copied texts g 30 ab))
strlcpy_example = strlcpy-take 3 abc 30 20 texts abc-IsString (omega arith)

memmove_example : memmove 21 20 3 texts 23 ≡ 99
memmove_example = memmove_lem 21 20 3 texts 23

memset_example : memset 20 300 2 texts 21 ≡ 44
memset_example = memset_lem 2 20 300 texts 21 (omega arith)
