-- ===== src/Testbench/Simulation/Report.antt =====
-- The end of `sc_main` of custom-endpoint/testbench.cpp: the result is read from the memory and
-- printed.
use Prim.Native.String.{String}
use pcie_systemc_linux.Prelude.{
  ℕ, zero, suc, ◌+◌, ◌*◌, ◌%◌, ◌^◌, ◌≡◌, ap, sym, ◌∙◌, List, [], ◌∷◌, ◌++◌, map, length, length-map,
  get_or, tabulate_from-get_or,
}
use pcie_systemc_linux.Prelude.Bytes.{
  words_to_bytes, bytes_to_words, bytes_to_words-words_to_bytes_mod,
}
use pcie_systemc_linux.Testbench.Memory.{HostMemory, read_data}

-- What goes to `cout`: text, a `float` by its bits, or the end of a line.
pub data Shown : Type 0 where
  text : String → Shown
  value : ℕ → Shown
  endl : Shown

-- The loops over row `i`, from column `j` on, and over the rows from `i` on.
abbrev pub print_row : ℕ → ℕ → ℕ → List ℕ → List Shown
print_row zero i j matrix_c = endl ∷ []
print_row (suc rounds) i j matrix_c =
    value (get_or matrix_c (i * 4 + j) 0) ∷ text " " ∷ print_row rounds i (j + 1) matrix_c

abbrev pub print_rows : ℕ → ℕ → List ℕ → List Shown
print_rows zero i matrix_c = []
print_rows (suc rows) i matrix_c =
    text "  " ∷ print_row 4 i 0 matrix_c ++ print_rows rows (i + 1) matrix_c

abbrev line : String
line = "=================================================="

abbrev top : String
top = "\n=================================================="

-- After `sc_start`. `buffer` is what the 64 bytes of the array `matrix_c` hold before they are read.
unfoldable pub print_result : HostMemory → List ℕ → List Shown
unfolding read_data
print_result memory buffer =
    text top
      ∷ endl
      ∷ text "Result Matrix C:"
      ∷ endl
      ∷ print_rows 4 0 (bytes_to_words 16 (read_data memory 0x3000 buffer 64))
    ++ text line ∷ endl ∷ []

-- A matrix of four columns, printed.
abbrev pub table : List ℕ → List Shown
table (v ∷ w ∷ x ∷ y ∷ words) =
    text "  "
    ∷ value v
    ∷ text " "
    ∷ value w
    ∷ text " "
    ∷ value x
    ∷ text " "
    ∷ value y
    ∷ text " "
    ∷ endl
    ∷ table words
table _ = []

-- What `sc_main` prints of the result `words`, as 32-bit patterns.
abbrev pub report : List ℕ → List Shown
report words =
    text top ∷ endl ∷ text "Result Matrix C:" ∷ endl ∷ table (map (λ w. w % 2 ^ 32) words)
    ++ text line ∷ endl ∷ []

print_rows-table : (words : List ℕ) → length words ≡ 16 → print_rows 4 0 words ≡ table words
print_rows-table words count = ap table (tabulate_from-get_or words 16 0 count)

pub print_result-report :
    (memory : HostMemory) (buffer words : List ℕ)
    → length words ≡ 16
    → read_data memory 0x3000 buffer 64 ≡ words_to_bytes words
    → print_result memory buffer ≡ report words
unfolding print_result
print_result-report memory buffer words count e =
    ap (λ rows. text top ∷ endl ∷ text "Result Matrix C:" ∷ endl ∷ rows ++ text line ∷ endl ∷ [])
      (ap (λ bytes. print_rows 4 0 (bytes_to_words 16 bytes)) e
        ∙ ap (print_rows 4 0) (bytes_to_words-words_to_bytes_mod words 16 (sym count))
        ∙ print_rows-table (map (λ w. w % 2 ^ 32) words) (length-map _ words ∙ count))
