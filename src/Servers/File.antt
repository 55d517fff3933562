-- ===== src/Servers/File.antt =====
-- apps/system/sys_file.c and library/syscall/servers.c: the file server, which keeps its file system
-- on the disk of the earth layer, and the call of it. The kernel carries a request to the server and
-- the reply back (grass/kernel.c), so that the call runs the handling of one request.
use egos.Base.{
  ℕ, ◌+◌, ◌*◌, ◌%◌, ◌^◌, ◌<◌, ◌≡◌, ◌==◌, ◌&&◌, ltb, if◌then◌else◌, refl, ap, ◌∙◌, arith, update,
  fun_ext, inl, inr, Bool-cases,
}
use egos.FileSystem.Block.{Block, fs_disk_blocks}
use egos.FileSystem.Run.{Cmd, Run, ok, fail, panic, pure, panicked, ◌>>=◌}
use egos.FileSystem.Store.{InodeStore, IsArray}
use egos.FileSystem.Files.{Files, block_of}
use egos.FileSystem.Treedisk.{treedisk_init}
use egos.FileSystem.Treedisk.Files.Refines.{IsFs}
use egos.FileSystem.Treedisk.Files.Read.{treedisk_read-block_of}

-- The blocks of the file system lie behind those of the executables.
abbrev pub file_sys_disk_start : ℕ
file_sys_disk_start = 4096

-- earth->disk_read and earth->disk_write, of one block.
pub record EarthDisk (S : Type 0) : Type 0 where
  pub disk_read : ℕ → Cmd S Block
  pub disk_write : ℕ → Block → Cmd S (Unit {0})

-- struct file_request; its block is only used by FILE_WRITE, which is not implemented.
pub record FileRequest : Type 0 where
  pub type : ℕ
  pub ino : ℕ
  pub offset : ℕ

pub data FileStatus : Type 0 where
  file_ok file_error : FileStatus

pub record FileReply : Type 0 where
  pub status : FileStatus
  pub block : Block

abbrev pub file_read_type : ℕ
file_read_type = 1

module _ {S : Type 0} (earth : EarthDisk S) where
  pub getsize : ℕ → Cmd S ℕ
  getsize ino = pure fs_disk_blocks

  pub setsize : ℕ → ℕ → Cmd S ℕ
  setsize ino newsize = panicked

  pub read : ℕ → ℕ → Cmd S Block
  read ino offset = earth.disk_read ((file_sys_disk_start + offset) % 2 ^ 32)

  pub write : ℕ → ℕ → Block → Cmd S (Unit {0})
  write ino offset block = earth.disk_write ((file_sys_disk_start + offset) % 2 ^ 32) block

  unfoldable pub disk : InodeStore S
  unfolding getsize setsize read write
  disk = record { getsize = getsize; setsize = setsize; read = read; write = write }

  -- The file system that `main` serves.
  unfoldable pub file_system : InodeStore S
  file_system = treedisk_init disk 0

module _ {S : Type 0} (fs : InodeStore S) where
  -- One round of the loop. `buffer` is the block that the message buffer holds already, which
  -- stays there if the read fails.
  abbrev pub read_reply : Block → Run S Block → Run S FileReply
  read_reply buffer (ok block t) = ok (record { status = file_ok; block = block }) t
  read_reply buffer (fail t) = ok (record { status = file_error; block = buffer }) t
  read_reply buffer (panic t) = panic t

  pub serve_file : Block → FileRequest → Cmd S FileReply
  serve_file buffer req s =
      if req.type == file_read_type
      then read_reply buffer (fs.read req.ino req.offset s)
      else panic s

  -- The result is 0 or -1; the block is what `file_read` copies to its caller.
  abbrev pub result : FileReply → ℕ × Block
  result reply = elim reply.status [
    | file_ok ↦ (0, reply.block)
    | file_error ↦ (4294967295, reply.block)
  ]

  pub file_read : Block → ℕ → ℕ → Cmd S (ℕ × Block)
  unfolding serve_file
  file_read buffer file_ino offset = do
    reply ← serve_file buffer (record { type = file_read_type; ino = file_ino; offset = offset })
    pure (result reply)

-- Within 4MB the disk reads and writes as an array of blocks.
pub record IsDisk {S : Type 0} (earth : EarthDisk S) : Type 0 where
  pub blocks : S → ℕ → Block
  pub put : S → ℕ → Block → S
  pub read_ok : (s : S) (n : ℕ) → n < 8192 → earth.disk_read n s ≡ ok (blocks s n) s
  pub write_ok : (s : S) (n : ℕ) (b : Block) → n < 8192 → earth.disk_write n b s ≡ ok tt (put s n b)
  pub blocks_put : (s : S) (n : ℕ) (b : Block) → blocks (put s n b) ≡ update (blocks s) n b

module _ {S : Type 0} {earth : EarthDisk S} (d : IsDisk earth) where
  pub shifted : (n : ℕ) → n < 4096 → (4096 + n) % 2 ^ 32 ≡ 4096 + n
  shifted n lt = omega (arith, lt)

  pub shifted_update :
      (f : ℕ → Block) (n : ℕ) (b : Block) (m : ℕ)
      → update f (4096 + n) b (4096 + m) ≡ update (λ k. f (4096 + k)) n b m
  shifted_update f n b m =
      let same : (4096 + m == 4096 + n) ≡ (m == n) = ground arith in rw same refl

  -- The second half of the disk is an array for the file system.
  unfoldable pub disk-IsArray : (ino : ℕ) → IsArray (disk earth) ino
  unfolding disk getsize read write
  disk-IsArray ino = record {
    size = fs_disk_blocks;
    contents = λ s n. d.blocks s (4096 + n);
    put = λ s n b. d.put s (4096 + n) b;
    getsize_ok = λ s. refl;
    read_ok = λ s n lt.
        ap (λ m. earth.disk_read m s) (shifted n lt) ∙ d.read_ok s (4096 + n) (omega (arith, lt));
    write_ok = λ s n b lt.
        ap (λ m. earth.disk_write m b s) (shifted n lt)
        ∙ d.write_ok s (4096 + n) b (omega (arith, lt));
    contents_put =
        λ s n b. rw (d.blocks_put s (4096 + n) b) (fun_ext λ m. shifted_update (d.blocks s) n b m);
  }

  -- If the second half of the disk holds files, then `file_read` through the file server
  -- changes nothing. It returns 0 and the block of the file at the offset, and -1 from the
  -- file's end on or for an inode that does not exist.
  pub file_read-block_of :
      (n room ino offset : ℕ) (buffer : Block) (files : Files) (s : S)
      → IsFs (disk-IsArray 0) n room files s
      → file_read (file_system earth) buffer ino offset s ≡ (
          if ltb ino (n * 64) && ltb offset (files ino).nblocks
          then ok (0, block_of (files ino) offset) s
          else ok (4294967295, buffer) s)
  unfolding file_read serve_file file_system treedisk_init
  file_read-block_of n room ino offset buffer files s f =
      elim (Bool-cases (ltb ino (n * 64) && ltb offset (files ino).nblocks)) [
        | inl inside ↦
            rw (treedisk_read-block_of (disk-IsArray 0) n room ino offset files s f, inside) refl
        | inr outside ↦
            rw (treedisk_read-block_of (disk-IsArray 0) n room ino offset files s f, outside) refl
      ]
