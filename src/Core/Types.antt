-- ===== src/Core/Types.antt =====
-- summ-core/src/types.rs: the records of tags, manifests and referrers. A map is its list of pairs.
use summ.Prelude.{ℕ, Option, List, Bytes}
use summ.Core.Digest.{Digest}
use summ.Core.Keys.{RepoId}

pub record Platform : Type 0 where
  pub os : Bytes
  pub arch : Bytes
  pub variant : Option Bytes

pub record ChildRef : Type 0 where
  pub digest : Digest
  pub platform : Option Platform

pub record ManifestRecord : Type 0 where
  pub repo : RepoId
  pub digest : Digest
  pub media_type : Bytes
  pub size : ℕ
  pub total_layer_size : ℕ
  pub platform : Option Platform
  pub layers : List Digest
  pub children : List ChildRef
  pub subject : Option Digest
  pub artifact_type : Option Bytes
  pub annotations : List (Bytes × Bytes)
  pub pushed_at : ℕ

pub record TagRecord : Type 0 where
  pub digest : Digest
  pub tagged_at : ℕ

pub record ReferrerRecord : Type 0 where
  pub media_type : Bytes
  pub artifact_type : Option Bytes
  pub size : ℕ
  pub annotations : List (Bytes × Bytes)

pub data TagEventKind : Type 0 where
  created deleted : TagEventKind

pub record TagEvent : Type 0 where
  pub event : TagEventKind
  pub media_type : Bytes
  pub size : ℕ
