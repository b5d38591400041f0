-- ===== src/Storage.antt =====
-- internal/storage: commands, and the state machines that apply them.
pub mod Order
pub mod Memory
pub mod Uint64
pub mod Digits
pub mod Pebble
use stellmap_service.Base.{
  ℕ, zero, suc, ◌+◌, ◌-◌, ◌*◌, ◌/◌, ◌%◌, ◌^◌, ◌≤◌, ◌<◌, ◌≡◌, ◌≢◌, ◌↔◌, ◌⊎◌, inl, inr, refl, sym, ap,
  ap₂, ◌∙◌, subst, fun_ext, Bool, true, false, not, ◌&&◌, ◌||◌, List, [], ◌∷◌, ◌++◌, map, reverse,
  append-nil, append_assoc, reverse-append, reverse-reverse, Option, none, some, arith, ltb, leb,
  ◌==◌, if◌then◌else◌, ==_refl, ==→eq, Bool-cases, Option-cases, &&-true, length, take, drop,
  get_last?, select, any, All, length-append, length-drop, take-append-drop, select-append,
  length-select, All-append, ℤ, pos, negsuc, pos_part, neg_part, sub_ℕ, ◌+ℤ◌, ◌≤ℤ◌, int_leb,
  IsInt64, wrap_int64, wrap_int64_of_IsInt64, wrap_int64-IsInt64, Result, ok, err, ◌>>=◌,
  bind-eq-ok,
}
use stellmap_service.Text.{Bytes}

pub data Operation : Type 0 where
  put delete delete_prefix : Operation
  other : Bytes → Operation

pub record Command : Type 0 where
  pub operation : Operation
  pub key : Bytes
  pub value : Bytes
  pub prefix : Bytes

pub record Kv : Type 0 where
  pub key : Bytes
  pub value : Bytes

pub record MemberAddress : Type 0 where
  pub node_id : ℕ
  pub http_addr : Bytes
  pub grpc_addr : Bytes
  pub admin_addr : Bytes
