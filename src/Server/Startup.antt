-- ===== src/Server/Startup.antt =====
-- `sc_main` of custom-endpoint/main.cc up to the end of the simulation: the socket's path, and
-- the calls that it makes.
use pcie_systemc_linux.Prelude.{
  ℕ, ◌≡◌, refl, ap, ap₂, ◌∙◌, sym, ◌⊎◌, inl, inr, Bool, true, false, Bool-cases, Option, none, some,
  List, [], ◌∷◌, ◌++◌, if_both, ◌+◌, drop, if◌then◌else◌, arith,
}
use pcie_systemc_linux.Server.Bridge.{startup, starts_with, unix_prefix}

-- The calls in which the reset line and the kernel take part, and the removal of an old socket.
pub data Action : Type 0 where
  unlink create_adapter : List ℕ → Action
  bind_reset register_master bind_monitor bind_dummy : Action
  write_reset : Bool → Action
  start_zero_time start : Action

unfoldable pub sc_main : Option (List ℕ) → (exists : List ℕ → Bool) → List Action
unfolding startup
sc_main argument exists =
    let s = startup argument exists in
    let rest =
      create_adapter s.sk_descr
      ∷ bind_reset
      ∷ register_master
      ∷ bind_monitor
      ∷ bind_dummy
      ∷ write_reset true
      ∷ start_zero_time
      ∷ write_reset false
      ∷ start
      ∷ [] in
    if s.unlinked then unlink s.socket_file ∷ rest else rest

-- A string that starts with another is that one and the rest.
starts_with-prefix : (p s : List ℕ) → starts_with p s ≡ true → (rest : List ℕ) × (s ≡ p ++ rest)
starts_with-prefix [] s h = (s, refl)
starts_with-prefix (c ∷ p) [] h = absurd (grind arith)
starts_with-prefix (c ∷ p) (x ∷ s) h =
    let (rest, e) = starts_with-prefix p s (grind arith) in
    let same : x ≡ c = ground arith in (rest, ap₂ ◌∷◌ same e)

-- The file of a descriptor.
file_of :
    (s : List ℕ)
    → let f = if starts_with unix_prefix s then drop 5 s else s in
      (s ≡ unix_prefix ++ f) ⊎ ((starts_with unix_prefix s ≡ false) × (f ≡ s))
file_of s = elim (Bool-cases (starts_with unix_prefix s)) [
  | inl prefixed ↦
      let (rest, e) = starts_with-prefix unix_prefix s prefixed in
      rw prefixed (inl (e ∙ ap (λ t. unix_prefix ++ t) (sym (ap (drop 5) e))))
  | inr other ↦ rw other (inr (refl, refl))
]

module _ (exists : List ℕ → Bool) where
  -- The file of a descriptor that starts with "unix:" is what follows, and that of any other the
  -- descriptor itself; so of "unix:" and a path it is the path.
  startup-socket_file :
      (argument : Option (List ℕ)) (path : List ℕ)
      → let s = startup argument exists in
        ((s.sk_descr ≡ unix_prefix ++ s.socket_file)
          ⊎ ((starts_with unix_prefix s.sk_descr ≡ false) × (s.socket_file ≡ s.sk_descr)))
        × ((startup (some (unix_prefix ++ path)) exists).socket_file ≡ path)
  unfolding startup
  startup-socket_file argument path = (file_of (startup argument exists).sk_descr, refl)

-- The level that was last written to the reset line, the bindings made, and these two at each
-- start of the simulation, the latest first.
pub record Phase : Type 0 where
  pub reset : Option Bool
  pub bindings : ℕ
  pub starts : List (Option Bool × ℕ)

abbrev act : Action → Phase → Phase
act (unlink f) s = s
act (create_adapter f) s = s
act bind_reset s = record s { bindings = s.bindings + 1 }
act register_master s = record s { bindings = s.bindings + 1 }
act bind_monitor s = record s { bindings = s.bindings + 1 }
act bind_dummy s = record s { bindings = s.bindings + 1 }
act (write_reset b) s = record s { reset = some b }
act start_zero_time s = record s { starts = (s.reset, s.bindings) ∷ s.starts }
act start s = record s { starts = (s.reset, s.bindings) ∷ s.starts }

abbrev pub run : List Action → Phase → Phase
run [] s = s
run (a ∷ actions) s = run actions (act a s)

abbrev pub nothing_done : Phase
nothing_done = record { reset = none; bindings = 0; starts = [] }

-- Whatever the argument and the files: all four bindings are made before the simulation starts,
-- it is started for zero time with the reset line high, and then for good with the line low.
sc_main-reset :
    (argument : Option (List ℕ)) (exists : List ℕ → Bool)
    → (run (sc_main argument exists) nothing_done).starts ≡ (some false, 4) ∷ (some true, 4) ∷ []
unfolding sc_main
sc_main-reset argument exists =
    if_both
      (λ (l : List Action). (run l nothing_done).starts ≡ (some false, 4) ∷ (some true, 4) ∷ [])
      (startup argument exists).unlinked _ _ refl refl
