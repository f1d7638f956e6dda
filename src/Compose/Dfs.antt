-- ===== src/Compose/Dfs.antt =====
-- platform/workflow/core/compose_file.go: what holds of a walk between two visits.
use runfabric.Prelude.{
  String, ◌=?=◌, ◌<◌, ◌≡◌, sym, true, false, ◌||◌, List, [], ◌∷◌, ◌++◌, arith, ◌⊎◌, eq_iff,
  text_eq_refl, Bool-cases, inl, inr, subst,
}
use runfabric.Compose.{ComposeService, contains, names, Walk, dependencies, append_name}
use runfabric.Compose.Position.{
  position, IsDistinct, contains-append, position-lt, position-append, position_last,
  IsDistinct-append,
}

module _ (services : List ComposeService) where
  abbrev pub DependsOn : String → String → Type 0
  DependsOn n d = contains d (dependencies services n) ≡ true

  -- From the first service one comes to the second along its dependencies.
  pub data Reaches : String → String → Type 0 where
    here : {n : String} → Reaches n n
    along : {n d m : String} → DependsOn n d → Reaches d m → Reaches n m

  pub Reaches-last : {n d m : String} → Reaches n d → DependsOn d m → Reaches n m
  Reaches-last here e = along e here
  Reaches-last (along f r) e = along f (Reaches-last r e)

  pub open-Reaches :
      (open_names : List String) (n x : String)
      → ((y : String) → contains y open_names ≡ true → Reaches y n)
      → contains x (n ∷ open_names) ≡ true
      → Reaches x n
  open-Reaches open_names n x stack p = elim (Bool-cases (n =?= x)) [
    | inl e ↦ subst (λ k. Reaches k n) ((eq_iff n x).0 e) here
    | inr e ↦ stack x (ground arith)
  ]

  -- A walk in the middle of the visits of the names `open_names`, which are not yet in the order.
  pub record IsWalk (open_names : List String) (w : Walk) : Type 0 where
    pub split : (x : String) → contains x w.visited ≡ (contains x open_names || contains x w.order)
    pub apart : (x : String) → contains x open_names ≡ true → contains x w.order ≡ false
    pub distinct : IsDistinct w.order
    pub settled :
        (n d : String)
        → contains n w.order ≡ true
        → DependsOn n d
        → ((contains d w.order ≡ true) × (position d w.order < position n w.order)) ⊎ Reaches d n
    pub known : (x : String) → contains x w.order ≡ true → contains x (names services) ≡ true

  pub mark_IsWalk :
      (open_names : List String) (n : String) (w : Walk)
      → IsWalk open_names w
      → contains n w.visited ≡ false
      → IsWalk (n ∷ open_names) (record w { visited = n ∷ w.visited })
  mark_IsWalk open_names n w h new = record {
    split = λ x. ground (arith, h.split x);
    apart = λ x p. ground (arith, h.apart x, h.split n, eq_iff n x);
    distinct = h.distinct;
    settled = h.settled;
    known = h.known;
  }

  -- A name that was in the order keeps its place when one is appended.
  settled_append :
      (n d m : String) (l : List String)
      → contains n l ≡ true
      → ((contains d l ≡ true) × (position d l < position n l)) ⊎ Reaches d n
      → ((contains d (l ++ m ∷ []) ≡ true) × (position d (l ++ m ∷ []) < position n (l ++ m ∷ [])))
        ⊎ Reaches d n
  settled_append n d m l h (inl (k, lt)) = inl (
    ground (arith, contains-append d l (m ∷ [])),
    omega (arith, position-append d l (m ∷ []) k, position-append n l (m ∷ []) h, lt),
  )
  settled_append n d m l h (inr r) = inr r

  -- A dependency of the name that is appended is in the order, or its visit is not finished.
  settled_last :
      (open_names : List String) (n d : String) (w : Walk)
      → IsWalk (n ∷ open_names) w
      → contains n w.order ≡ false
      → ((x : String) → contains x open_names ≡ true → Reaches x n)
      → contains d w.visited ≡ true
      → ((contains d (w.order ++ n ∷ []) ≡ true)
          × (position d (w.order ++ n ∷ []) < position n (w.order ++ n ∷ [])))
        ⊎ Reaches d n
  settled_last open_names n d w h fresh stack seen = elim (Bool-cases (contains d w.order)) [
    | inl old ↦ inl (
      ground (arith, contains-append d w.order (n ∷ [])),
      omega (
        arith,
        position-lt d w.order old,
        position-append d w.order (n ∷ []) old,
        position_last n w.order fresh,
      ),
    )
    | inr new ↦ elim (Bool-cases (n =?= d)) [
      | inl e ↦ inr (subst (λ k. Reaches k n) ((eq_iff n d).0 e) here)
      | inr e ↦ inr (stack d (ground (arith, h.split d)))
    ]
  ]

  pub append_IsWalk :
      (open_names : List String) (n : String) (w : Walk)
      → IsWalk (n ∷ open_names) w
      → contains n open_names ≡ false
      → contains n (names services) ≡ true
      → ((x : String) → contains x open_names ≡ true → Reaches x n)
      → ((d : String) → DependsOn n d → contains d w.visited ≡ true)
      → IsWalk open_names (append_name n w)
  unfolding append_name
  append_IsWalk open_names n w h closed listed stack all =
      let fresh : contains n w.order ≡ false = h.apart n (ground (arith, text_eq_refl n)) in
      record {
        split = λ x. ground (arith, h.split x, contains-append x w.order (n ∷ []));
        apart = λ x p.
            ground (arith, h.apart x, contains-append x w.order (n ∷ []), eq_iff n x, closed);
        distinct = IsDistinct-append n w.order h.distinct fresh;
        settled = λ m d p q. elim (Bool-cases (contains m w.order)) [
          | inl old ↦ settled_append m d n w.order old (h.settled m d old q)
          | inr new ↦
              let e : n ≡ m = ground (arith, contains-append m w.order (n ∷ []), eq_iff n m) in
              subst
                (λ k.
                  ((contains d (w.order ++ n ∷ []) ≡ true)
                    × (position d (w.order ++ n ∷ []) < position k (w.order ++ n ∷ [])))
                  ⊎ Reaches d k)
                e
                (settled_last open_names n d w h fresh stack
                  (all d (subst (λ k. DependsOn k d) (sym e) q)))
        ];
        known = λ x p. ground (arith, h.known x, contains-append x w.order (n ∷ []), eq_iff n x);
      }
