-- ===== src/Security/Modules.antt =====
-- kernel/security.c: the security modules and their hooks.
use shadow_box_os.Common.Errno.{Result, ok, err, enomem, enoent}
use shadow_box_os.Common.{
  ℕ, ◌≡◌, ◌≢◌, refl, ap, sym, subst, ◌⊎◌, inl, inr, Bool, true, false, Option, none, some, List, [],
  ◌∷◌, ◌++◌, length, leb, ◌==◌, if◌then◌else◌, arith, Bool-cases, List-cases, All,
}
use mathlib.Core.List.Perm
use mathlib.Core.List.{Perm, perm_append_singleton, perm-cons, perm_middle}

-- What a hook answers.
pub data Verdict : Type 0 where
  go_on allow deny fails : Verdict

-- A module is its address, whether it is enabled, and what its hooks, where it has them, answer for
-- a process and arguments.
pub record Module : Type 0 where
  pub address : ℕ
  pub enabled : Bool
  pub hooks : ℕ → Option (ℕ → Verdict)

abbrev pub max_modules : ℕ
max_modules = 16

unfoldable pub lsm_register : List Module → Module → Result (List Module)
lsm_register ms m = if leb max_modules (length ms) then err enomem else ok (ms ++ m ∷ [])

abbrev pub last_of : Module → List Module → Module
last_of m [] = m
last_of m (n ∷ ms) = last_of n ms

unfoldable pub without_last : List Module → List Module
without_last [] = []
without_last (m ∷ []) = []
without_last (m ∷ n ∷ ms) = m ∷ without_last (n ∷ ms)

-- The last module takes the place of the one that goes.
unfoldable pub lsm_unregister : List Module → ℕ → Result (List Module)
lsm_unregister [] address = err enoent
lsm_unregister (m ∷ ms) address =
    let rest = lsm_unregister ms address in
    if m.address == address
    then elim ms [ [] ↦ ok [] | n ∷ ns ↦ ok (last_of n ns ∷ without_last (n ∷ ns)) ]
    else elim rest [ ok ns ↦ ok (m ∷ ns) | err e ↦ err e ]

abbrev pub refuses : Verdict → Bool
refuses go_on = false
refuses allow = false
refuses deny = true
refuses fails = true

-- What one module answers; a disabled one, and one without the hook, lets the call go on.
unfoldable pub answer : Module → ℕ → ℕ → Verdict
answer m hook args = elim (m.hooks hook) [
  | none ↦ go_on
  | some f ↦ if m.enabled then f args else go_on
]

unfoldable pub lsm_hook_invoke : List Module → ℕ → ℕ → Verdict
lsm_hook_invoke [] hook args = allow
lsm_hook_invoke (m ∷ ms) hook args =
    let v = answer m hook args in if refuses v then v else lsm_hook_invoke ms hook args

-- The module is enabled, has the hook, and refuses in it.
abbrev pub Refuses : Module → ℕ → ℕ → Type 0
Refuses m hook args = refuses (answer m hook args) ≡ true

-- No module refuses.
abbrev pub AllLet : List Module → ℕ → ℕ → Type 0
AllLet ms hook args = All (λ m. refuses (answer m hook args) ≡ false) ms

-- The answer of a hook is LSM_ALLOW exactly if no module refuses, and otherwise the refusal of the
-- first module that does; in that case, and in no other, something is refused.
pub lsm_hook_invoke_lem :
    (ms : List Module) (hook args : ℕ)
    → ((lsm_hook_invoke ms hook args ≡ allow) × AllLet ms hook args)
      ⊎ ((before : List Module) × (m : Module) × (after : List Module) × (ms ≡ before ++ m ∷ after)
          × AllLet before hook args
          × (Refuses m hook args)
          × (lsm_hook_invoke ms hook args ≡ answer m hook args))
unfolding lsm_hook_invoke
lsm_hook_invoke_lem [] hook args = inl (refl, tt)
lsm_hook_invoke_lem (m ∷ ms) hook args = elim (Bool-cases (refuses (answer m hook args))) [
  | inl bad ↦ inr ([], m, ms, refl, tt, bad, ground (arith, bad))
  | inr good ↦ elim (lsm_hook_invoke_lem ms hook args) [
    | inl (all, let_all) ↦ inl (ground (arith, good, all), (good, let_all))
    | inr (before, n, after, is, let_before, bad, run) ↦
        inr
          (m ∷ before, n, after, ap (◌∷◌ m) is, (good, let_before), bad, ground (arith, good, run))
  ]
]

snoc-last : (m : Module) (ms : List Module) → without_last (m ∷ ms) ++ last_of m ms ∷ [] ≡ m ∷ ms
unfolding without_last
snoc-last m [] = refl
snoc-last m (n ∷ ms) = ap (◌∷◌ m) (snoc-last n ms)

perm_last : (n : Module) (ns : List Module) → Perm (last_of n ns ∷ without_last (n ∷ ns)) (n ∷ ns)
perm_last n ns =
    Perm.trans (Perm.symm (perm_append_singleton (last_of n ns) (without_last (n ∷ ns))))
      (subst (λ l. Perm l (n ∷ ns)) (sym (snoc-last n ns)) (Perm.refl (n ∷ ns)))

-- lsm_unregister of a module that is not registered fails with ENOENT; otherwise it takes out one
-- entry with the address and keeps all others, maybe in another order.
pub lsm_unregister_lem :
    (ms : List Module) (address : ℕ)
    → ((lsm_unregister ms address ≡ err enoent) × All (λ m. m.address ≢ address) ms)
      ⊎ ((ms' : List Module) × (m : Module) × (lsm_unregister ms address ≡ ok ms')
          × (m.address ≡ address)
          × Perm (m ∷ ms') ms)
unfolding lsm_unregister
lsm_unregister_lem [] address = inl (refl, tt)
lsm_unregister_lem (m ∷ ms) address = elim (Bool-cases (m.address == address)) [
  | inl hit ↦ elim (List-cases ms) [
    | inl alone ↦ inr (
      [],
      m,
      ground (arith, hit, alone),
      ground (arith, hit),
      (perm-cons m).1 (subst (Perm []) (sym alone) (Perm.refl [])),
    )
    | inr (n, ns, more) ↦ inr (
      last_of n ns ∷ without_last (n ∷ ns),
      m,
      ground (arith, hit, more),
      ground (arith, hit),
      (perm-cons m).1 (subst (Perm _) (sym more) (perm_last n ns)),
    )
  ]
  | inr miss ↦ elim (lsm_unregister_lem ms address) [
    | inl (gone, none_there) ↦ inl (ground (arith, miss, gone), (ground (arith, miss), none_there))
    | inr (ms', n, run, is, perm) ↦ inr (
      m ∷ ms',
      n,
      ground (arith, miss, run),
      is,
      Perm.trans (perm_middle (n ∷ []) ms') ((perm-cons m).1 perm),
    )
  ]
]
