-- ===== src/Usb/Keep.antt =====
-- Properties of the state that operations on single commands keep (src/mtbusb/mtbusb-receive.cpp).
pub mod Receive
pub mod Frame
pub mod Sending
use mtb_daemon.Base.{
  ℕ, zero, suc, ◌⊎◌, arith, ◌≡◌, refl, inl, inr, Option, none, some, List, [], ◌∷◌, Option-cases,
  Bool-cases, ◌==◌, if_rule, is_empty, get_elem?,
}
use mtb_daemon.Cmd.Reply.{Reply}
use mtb_daemon.Usb.{Usb, Pending, Env, Signal, call_back, emit, log_event, undefined}
use mtb_daemon.Usb.Timer.{pending_timeout_error}
use mtb_daemon.Usb.Match.{
  find_pending, usb_answer, bus_answer, index_of_id, finish_at, finish_index, match_usb, match_bus,
}

module _ {K : Type 0} where
  -- The port, the queues and the next address agree.
  abbrev pub SameQueues : Usb K → Usb K → Type 0
  SameQueues s t =
      (t.is_open ≡ s.is_open) × (t.pending ≡ s.pending) × (t.out ≡ s.out) × (t.next_id ≡ s.next_id)

  -- What a property must survive.
  pub record Keeps (env : Env K) (P : Usb K → Type 0) : Type 0 where
    pub same : (s t : Usb K) → SameQueues s t → P s → P t
    pub calls : (k : K) (r : Reply) (s : Usb K) → P s → P (call_back env k r s)
    pub emits : (sig : Signal) (s : Usb K) → P s → P (emit env sig s)
    pub timeout : (error i : ℕ) (s : Usb K) → P s → P (pending_timeout_error env error i s)
    pub finish :
        (i : ℕ) (c : Pending K) (s : Usb K)
        → get_elem? s.pending i ≡ some c
        → P s
        → P (finish_at env i s)

  index_of_id_tail :
      (id : ℕ) (p : Pending K) (ps : List (Pending K)) (i : ℕ)
      → index_of_id id (p ∷ ps) ≡ some i
      → (i ≡ 0) ⊎ ((j : ℕ) × (i ≡ suc j) × (index_of_id id ps ≡ some j))
  unfolding index_of_id
  index_of_id_tail id p ps i e = elim (Option-cases (index_of_id id ps)) [
    | inl n ↦ inl (ground arith)
    | inr (j, f) ↦ elim (Bool-cases (p.cmd.id == id)) [
      | inl t ↦ inl (ground arith)
      | inr t ↦ inr (j, ground arith, f)
    ]
  ]

  -- The index that is found is one of the list.
  pub get_elem?-index_of_id :
      (id : ℕ) (ps : List (Pending K)) (i : ℕ)
      → index_of_id id ps ≡ some i
      → (c : Pending K) × (get_elem? ps i ≡ some c)
  unfolding index_of_id
  get_elem?-index_of_id id [] i e = absurd (cc)
  get_elem?-index_of_id id (p ∷ ps) i e = elim (index_of_id_tail id p ps i e) [
    | inl z ↦ (p, rw z)
    | inr (j, z, found) ↦ let (c, g) = get_elem?-index_of_id id ps j found in (c, rw z g)
  ]

module _ {K : Type 0} (env : Env K) (P : Usb K → Type 0) (kept : Keeps env P) where
  finish_found_keeps :
      (o : Option ℕ) (id : ℕ) (t : Usb K)
      → index_of_id id t.pending ≡ o
      → P t
      → P (elim o [ none ↦ t | some j ↦ finish_at env j t ])
  finish_found_keeps none id t e h = h
  finish_found_keeps (some j) id t e h =
      let (c, g) = get_elem?-index_of_id id t.pending j e in kept.finish j c t g h

  pub match_usb_keeps : (command : ℕ) (s : Usb K) → P s → P (match_usb env command s)
  unfolding match_usb
  match_usb_keeps command s h = elim (Option-cases (find_pending (usb_answer command) s.pending)) [
    | inl e ↦ rw (e, match_usb) h
    | inr ((i, p, r), e) ↦
        rw (e, match_usb)
          (finish_found_keeps _ p.cmd.id (call_back env p.cmd.on_ok r s) refl
            (kept.calls p.cmd.on_ok r s h))
  ]

  -- The state in which a message for MTBbus leaves the queues, if it answers a command.
  abbrev pub IsKept : Option (Usb K) → Type 0
  IsKept none = Unit
  IsKept (some t) = P t

  finish_get_keeps :
      (o : Option (Pending K)) (i : ℕ) (t : Usb K)
      → get_elem? t.pending i ≡ o
      → P t
      → P (elim o [ none ↦ log_event undefined t | some c ↦ finish_at env i t ])
  finish_get_keeps none i t e h = kept.same t _ (refl, refl, refl, refl) h
  finish_get_keeps (some c) i t e h = kept.finish i c t e h

  finish_index_keeps : (i : ℕ) (t : Usb K) → P t → P (finish_index env i t)
  unfolding finish_index
  finish_index_keeps i t h =
      if_rule P (is_empty t.pending) (λ _. h)
        (λ _. finish_get_keeps (get_elem? t.pending i) i t refl h)

  pub match_bus-IsKept :
      (addr command : ℕ) (bytes : List ℕ) (s : Usb K)
      → P s
      → IsKept (match_bus env addr command bytes s)
  unfolding match_bus
  match_bus-IsKept addr command bytes s h =
      elim (Option-cases (find_pending (bus_answer addr command bytes) s.pending)) [
        | inl e ↦ rw (e, match_bus) tt
        | inr ((i, p, r), e) ↦
            rw (e, match_bus) (finish_index_keeps i _ (kept.calls p.cmd.on_ok r s h))
      ]
