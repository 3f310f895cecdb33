-- ===== src/Database/Pool/Order.antt =====
-- The order in which a pool hands out its connections, DataBase/KaRedis/KaCachePool.cpp.
use ka_im.Prelude.{
  ℕ, ◌+◌, ◌≡◌, refl, sym, ap, ◌∙◌, true, false, List, [], ◌∷◌, ◌++◌, append_assoc, append-nil, map,
  Option, arith, length, length-append,
}
use ka_im.Database.Pool.{Pool, Got, conn, get_cache_conn, rel_cache_conn, is_free}

-- Threads that give connections back, one after the other.
unfoldable pub give_back_all : List ℕ → Pool → Pool
give_back_all [] p = p
give_back_all (c ∷ cs) p = give_back_all cs (rel_cache_conn c p)

-- Threads that ask for one, with what making a connection would give to each.
unfoldable pub gets : List (Option ℕ) → Pool → List Got × Pool
gets [] p = ([], p)
gets (creation ∷ rest) p =
    let (got, q) = get_cache_conn creation p in let (more, last) = gets rest q in (got ∷ more, last)

-- None of them is free, and none comes twice.
abbrev pub AllNew : List ℕ → List ℕ → Type 0
AllNew [] free = Unit {0}
AllNew (c ∷ cs) free = (is_free c free ≡ false) × AllNew cs (free ++ c ∷ [])

give_back_all_lem :
    (cs : List ℕ) (p : Pool)
    → AllNew cs p.free_list
    → give_back_all cs p ≡ record p { free_list = p.free_list ++ cs }
unfolding give_back_all rel_cache_conn
give_back_all_lem [] p h = ap (λ l. record p { free_list = l }) (sym (append-nil p.free_list))
give_back_all_lem (c ∷ cs) p h =
    rw h.0 (give_back_all_lem cs (record p { free_list = p.free_list ++ c ∷ [] }) h.1)
    ∙ ap (λ l. record p { free_list = l }) (append_assoc p.free_list (c ∷ []) cs)

get_front :
    (creation : Option ℕ) (p : Pool) (c : ℕ) (rest : List ℕ)
    → p.free_list ≡ c ∷ rest
    → get_cache_conn creation p ≡ (conn c, record p { free_list = rest })
unfolding get_cache_conn
get_front creation p c rest e = ground (arith, e)

gets_lem :
    (free : List ℕ) (creations : List (Option ℕ)) (p : Pool)
    → p.free_list ≡ free
    → length creations ≡ length free
    → gets creations p ≡ (map conn free, record p { free_list = [] })
unfolding gets
gets_lem [] [] p e h = ap (λ l. ([], record p { free_list = l })) e
gets_lem [] (x ∷ xs) p e h = absurd (omega (arith, h))
gets_lem (c ∷ rest) [] p e h = absurd (omega (arith, h))
gets_lem (c ∷ rest) (x ∷ xs) p e h =
    ap (λ g. (g.0 ∷ (gets xs g.1).0, (gets xs g.1).1)) (get_front x p c rest e)
    ∙ ap (λ g. (conn c ∷ g.0, g.1))
        (gets_lem rest xs (record p { free_list = rest }) refl (omega (arith, h)))

again : (c : ℕ) (p : Pool) → is_free c p.free_list ≡ true → rel_cache_conn c p ≡ p
unfolding rel_cache_conn
again c p h = rw h refl

-- Threads give back connections of which none is free and none comes twice. Then giving one
-- back that is free now changes nothing, and threads that ask for as many as are free get first those
-- that were free before, in their order, and then the ones given back, in the order in which they
-- came; nobody waits, no connection is made, and none is free any more.
pub gets-give_back_all :
    (cs : List ℕ) (creations : List (Option ℕ)) (p : Pool)
    → AllNew cs p.free_list
    → length creations ≡ length p.free_list + length cs
    → ((c : ℕ)
        → is_free c (p.free_list ++ cs) ≡ true
        → rel_cache_conn c (give_back_all cs p) ≡ give_back_all cs p)
      × (gets creations (give_back_all cs p)
          ≡ (map conn (p.free_list ++ cs), record p { free_list = [] }))
gets-give_back_all cs creations p new enough =
    let back = give_back_all_lem cs p new in
    (
      λ c h. again c (give_back_all cs p) (ap (λ q. is_free c q.free_list) back ∙ h),
      ap (gets creations) back
          ∙ gets_lem (p.free_list ++ cs) creations (record p { free_list = p.free_list ++ cs }) refl
              (omega (arith, enough, length-append p.free_list cs)),
    )
