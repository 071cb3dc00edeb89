-- ===== src/Authenticator/Register/Fields.antt =====
-- The fields of a request of `cmd_make_credential`: every refusal has an error status.
use bluepass.Common.{
  ℕ, zero, suc, ◌≡◌, Bool, true, false, not, ◌&&◌, ◌||◌, Option, none, some, List, ltb, ◌==◌, arith,
  ascii,
}
use Prim.Native.String.{String}
use bluepass.Cbor.{CborDec, cd_item, cd_map_uint, cd_map_tstr, cd_tstr, cd_sub}
use bluepass.Storage.{Nvs}
use bluepass.ClientPin.{Crypto}
use bluepass.Credential.{Sealing}
use bluepass.Authenticator.{
  Env, parsed, ◌>>=◌, required, optional, non_null, skip_item, option_flag,
}
use bluepass.Authenticator.Register.{
  is_es256, alg_loop, has_es256, user_text, user_handle, user_entry, make_rp, make_options,
}
use bluepass.Authenticator.Reading.{
  Ensures, Any, bind, required-Any, optional-Any, non_null-Ensures, skip_item-Any, if_Ensures,
  option_flag-Ensures,
}

alg_loop-Ensures : (fuel n : ℕ) (v : CborDec) (has : Bool) → Ensures Any (alg_loop fuel n v has)
unfolding alg_loop
alg_loop-Ensures fuel zero v has = tt
alg_loop-Ensures fuel (suc n) v has = by_error v.err (alg_loop-Ensures fuel n)
  where
    by_error :
        (b : Bool)
        → ((v' : CborDec) (has' : Bool) → Ensures Any (alg_loop fuel n v' has'))
        → Ensures {A = Bool} Any (elim b [
          | true ↦ parsed has
          | false ↦ optional (cd_map_tstr fuel (cd_sub v).buf (cd_sub v).len (ascii "alg")) >>= λ o.
              skip_item fuel v >>= λ v'. alg_loop fuel n v' (has || is_es256 o)
        ])
    by_error true ih = tt
    by_error false ih =
        let l = cd_map_tstr fuel (cd_sub v).buf (cd_sub v).len (ascii "alg") in
        bind Any Any (optional l) _ (optional-Any l) λ o _.
          bind Any Any (skip_item fuel v) _ (skip_item-Any fuel v) λ v' _. ih v' (has || is_es256 o)

pub has_es256-Ensures : (fuel : ℕ) (o : Option CborDec) → Ensures Any (has_es256 fuel o)
unfolding has_es256
has_es256-Ensures fuel none = tt
has_es256-Ensures fuel (some v) =
    let (arr, v') = cd_item v in
    if_Ensures Any (not v'.err && arr.major_type == 4) _ _
      (λ _. alg_loop-Ensures fuel arr.val v' false) (λ _. tt)

user_text-Ensures : (fuel : ℕ) (v : CborDec) (key : String) → Ensures Any (user_text fuel v key)
unfolding user_text
user_text-Ensures fuel v key =
    let l = cd_map_tstr fuel v.buf v.len (ascii key) in
    bind Any Any (optional l) _ (optional-Any l) (λ o _. tt)

user_handle-Ensures : (fuel : ℕ) (v : CborDec) → Ensures Any (user_handle fuel v)
unfolding user_handle
user_handle-Ensures fuel v =
    let l = cd_map_tstr fuel v.buf v.len (ascii "id") in
    bind Any Any (optional l) _ (optional-Any l) (λ o _. tt)

pub user_entry-Ensures : (fuel : ℕ) (o : Option CborDec) → Ensures Any (user_entry fuel o)
unfolding user_entry
user_entry-Ensures fuel none = tt
user_entry-Ensures fuel (some v) =
    bind Any Any (user_handle fuel v) _ (user_handle-Ensures fuel v) λ handle _.
      bind Any Any (user_text fuel v "name") _ (user_text-Ensures fuel v "name") λ name _.
        bind Any Any (user_text fuel v "displayName") _ (user_text-Ensures fuel v "displayName")
          λ display _. tt

module _ {S : Type 0} (nvs : Nvs S) (c : Crypto) (k : Sealing) (env : Env) (fuel : ℕ) (req : List ℕ)
    (req_len : ℕ) where
  pub make_rp-Ensures : Ensures Any (make_rp nvs c k env fuel req req_len)
  unfolding make_rp
  make_rp-Ensures =
      let l = cd_map_uint fuel req req_len 0x02 in
      bind Any Any (required l) _ (required-Any l) λ v _.
        let m = cd_map_tstr fuel v.buf v.len (ascii "id") in
        bind Any Any (required m) _ (required-Any m) λ rp _.
          bind (λ r. (cd_tstr rp).0 ≡ some r) Any (non_null 0x12 (cd_tstr rp).0) _
            (non_null-Ensures 0x12 (cd_tstr rp).0 (omega arith))
            λ s _. if_Ensures Any (s.1 == 0 || ltb 128 s.1) _ _ (λ _. omega arith) (λ _. tt)

  pub make_options-Ensures : Ensures Any (make_options nvs c k env fuel req req_len)
  unfolding make_options
  make_options-Ensures =
      let l = cd_map_uint fuel req req_len 0x07 in
      bind Any Any (optional l) _ (optional-Any l) by_case
    where
      by_case :
          (o : Option CborDec)
          → Unit {0}
          → Ensures {A = Bool × Bool} Any (elim o [
            | none ↦ parsed (false, false)
            | some v ↦
                option_flag fuel v "rk" >>= λ rk. option_flag fuel v "uv" >>= λ uv. parsed (rk, uv)
          ])
      by_case none u = tt
      by_case (some v) u =
          bind Any Any (option_flag fuel v "rk") _ (option_flag-Ensures fuel v "rk") λ rk _.
            bind Any Any (option_flag fuel v "uv") _ (option_flag-Ensures fuel v "uv") λ uv _. tt
