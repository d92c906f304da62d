-- ===== src/FdManager/Examples.antt =====
-- A table of two, where the descriptor 1 is a socket that blocks.
use server_framework.Base.{
  ℕ, ◌==◌, ◌≡◌, refl, Bool, true, false, Option, none, some, List, [], ◌∷◌, set, ok, arith,
}
use server_framework.FdManager.{FdCtx, init, new_ctx, get, del}
use server_framework.FdManager.Table.{Found, get-del}

abbrev stat_of : ℕ → Option Bool
stat_of fd = some (fd == 1)

abbrev blocking : ℕ → Bool
blocking fd = false

abbrev two_entries : List (Option FdCtx)
two_entries = none ∷ none ∷ []

socket_is_set : (new_ctx stat_of blocking 1).sys_nonblock ≡ true
unfolding new_ctx init
socket_is_set = refl

get-del_example :
    (c : FdCtx) × (datas' : List (Option FdCtx)) × (datas'' : List (Option FdCtx)) × (get stat_of
        blocking two_entries 1 true
      ≡ ok (some c, datas'))
    × Found stat_of blocking two_entries 1 c datas'
    × ((again : Bool) → get stat_of blocking datas' 1 again ≡ ok (some c, datas'))
    × (del stat_of blocking datas' 1 ≡ ok datas'')
    × (get stat_of blocking datas'' 1 true
        ≡ ok (some (new_ctx stat_of blocking 1), set datas'' 1 (some (new_ctx stat_of blocking 1))))
get-del_example = get-del stat_of blocking two_entries 1 (omega arith)
