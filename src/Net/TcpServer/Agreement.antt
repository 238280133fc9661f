-- ===== src/Net/TcpServer/Agreement.antt =====
-- src/net/tcp_server.c: pollers that differ for one descriptor only.
use zero_tool_kit.Prelude.{
  ℕ, ◌≡◌, ◌≢◌, inl, inr, refl, sym, ap, ◌∙◌, ◌==◌, ==_refl, ==_ne, Bool, none, some, arith,
  Bool-cases,
}
use zero_tool_kit.Poller.Select.{Poller, add, del}
use zero_tool_kit.Poller.Select.Registry.{IsRegistry, lookup, add-lookup, del-lookup}
use zero_tool_kit.Net.Socket.{at_poller}

-- Two families of pollers agree but for one descriptor, and are in order.
pub record Agrees (fd : ℕ) (before after : ℕ → Poller) : Type 0 where
  pub in_order : (p : ℕ) → IsRegistry (after p)
  pub same_wake : (p : ℕ) → (after p).wake_r ≡ (before p).wake_r
  pub others : (p g : ℕ) → g ≢ fd → lookup (after p) g ≡ lookup (before p) g

pub Agrees-trans : {fd : ℕ} {a b c : ℕ → Poller} → Agrees fd a b → Agrees fd b c → Agrees fd a c
Agrees-trans u v = record {
  in_order = v.in_order;
  same_wake = λ p. v.same_wake p ∙ u.same_wake p;
  others = λ p g ne. v.others p g ne ∙ u.others p g ne;
}

-- One poller replaced.
pub at_poller-Agrees :
    (fd : ℕ) (before : ℕ → Poller) (p : ℕ) (q : Poller)
    → ((r : ℕ) → IsRegistry (before r))
    → IsRegistry q
    → q.wake_r ≡ (before p).wake_r
    → ((g : ℕ) → g ≢ fd → lookup q g ≡ lookup (before p) g)
    → Agrees fd before (at_poller before p q)
at_poller-Agrees fd before p q valid new wake keeps = record {
  in_order =
      λ r. elim (Bool-cases (r == p)) [ inl same ↦ rw same new | inr other ↦ rw other (valid r) ];
  same_wake = λ r. elim (Bool-cases (r == p)) [
    | inl same ↦
        let e : r ≡ p = ground arith in rw same (wake ∙ ap (λ n. (before n).wake_r) (sym e))
    | inr other ↦ rw other refl
  ];
  others = λ r g ne. elim (Bool-cases (r == p)) [
    | inl same ↦
        let e : r ≡ p = ground arith in rw same (keeps g ne ∙ ap (λ n. lookup (before n) g) (sym e))
    | inr other ↦ rw other refl
  ];
}

pub add-others :
    (calloc_ok : Bool) (p : Poller) (fd events cb user g : ℕ)
    → g ≢ fd
    → lookup (add calloc_ok p (some fd) events cb user).1 g ≡ lookup p g
add-others calloc_ok p fd events cb user g ne = elim (add-lookup calloc_ok p fd events cb user g) [
  | inl (fine, why, new) ↦ new ∙ rw (==_ne g fd ne) refl
  | inr (bad, refused, kept, gone) ↦ ap (λ q. lookup q g) kept
]

pub del-others :
    (p : Poller) (fd g : ℕ) → IsRegistry p → g ≢ fd → lookup (del p (some fd)).1 g ≡ lookup p g
del-others p fd g v ne = elim (del-lookup p fd g v) [
  | inl (fine, other, there, new) ↦ new ∙ rw (==_ne g fd ne) refl
  | inr (bad, kept, why) ↦ ap (λ q. lookup q g) kept
]

-- After a deletion the descriptor is not registered, unless it is the wake pipe's.
pub del_gone :
    (p : Poller) (fd : ℕ) → IsRegistry p → fd ≢ p.wake_r → lookup (del p (some fd)).1 fd ≡ none
del_gone p fd v ne = elim (del-lookup p fd fd v) [
  | inl (fine, other, there, new) ↦ new ∙ rw (==_refl fd) refl
  | inr (bad, kept, inl wake) ↦ absurd (ne wake)
  | inr (bad, kept, inr gone) ↦ ap (λ q. lookup q fd) kept ∙ gone
]
