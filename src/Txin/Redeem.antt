-- ===== src/Txin/Redeem.antt =====
-- The redeem-script accessors: what lies behind the start position.
use bitcoin_clib.Base.{
  ℕ, ◌-◌, ◌≤◌, ◌≡◌, refl, List, leb, arith, length, drop, none, some, ok, ◌>>=◌, length-drop,
  if◌then◌else◌, ge→ltb,
}
use bitcoin_clib.Varstr.Laws.{varstr_of, Fits, varint_get_exact, varstr_getdata_ptr_exact}
use bitcoin_clib.Varstr.Create.{varstr_new_lem}
use bitcoin_clib.Varstr.{varstr_new}
use bitcoin_clib.Txin.{
  Txin, satoshi_txin_get_redeem_scripts, satoshi_txin_query_redeem_scripts_data,
  satoshi_txin_set_redeem_scripts,
}

-- The state after the script parser moved the start position of the script `d`.
abbrev pub HoldsScript : Txin → List ℕ → Type 0
HoldsScript txin d = txin.redeem_scripts ≡ some (varstr_of d)

-- For a script of a length below 2 ^ 63 - 9 that satoshi_txin_set_redeem_scripts stored and a
-- start position in it or at its end, satoshi_txin_get_redeem_scripts gives the stored form of
-- the bytes from there on and NULL at the end, and satoshi_txin_query_redeem_scripts_data gives
-- those bytes and their number, also at the end.
pub satoshi_txin_redeem_lem :
    (txin : Txin) (d : List ℕ) (start : ℕ)
    → Fits d
    → start ≤ length d
    → (satoshi_txin_set_redeem_scripts txin (some d) (length d) >>= λ t.
          satoshi_txin_get_redeem_scripts (record t { redeem_scripts_start_pos = start }))
        ≡ ok (if leb (length d) start then none else some (varstr_of (drop start d)))
      × (satoshi_txin_set_redeem_scripts txin (some d) (length d) >>= λ t.
          satoshi_txin_query_redeem_scripts_data (record t { redeem_scripts_start_pos = start }))
        ≡ ok (some (length d - start, drop start d))
unfolding satoshi_txin_set_redeem_scripts satoshi_txin_get_redeem_scripts
    satoshi_txin_query_redeem_scripts_data
satoshi_txin_redeem_lem txin d start h k =
    rw
      (
        varstr_new_lem d h,
        varstr_getdata_ptr_exact d,
        varint_get_exact d (omega arith),
        ge→ltb (length d) start k,
      )
      (rw rest_lem (ground arith), refl)
  where
    rest_lem : varstr_new (some (drop start d)) (length d - start) ≡ ok (varstr_of (drop start d))
    rest_lem =
        rw (length-drop start d) at
          (varstr_new_lem (drop start d) (omega (arith, length-drop start d)))
