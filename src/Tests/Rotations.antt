-- ===== src/Tests/Rotations.antt =====
-- Runs of the rotation of log files in src/main.c, on the disk of Tests/Disks.
use pmlogdaemon.Base.{
  ℕ, ◌≤◌, ◌<◌, ◌≡◌, refl, true, false, none, some, [], ◌∷◌, ◌++◌, arith, Bytes, codes, length,
  str_eq, if◌then◌else◌,
}
use pmlogdaemon.Base.Int.{pos}
use pmlogdaemon.Conf.{LogFile}
use pmlogdaemon.Rotation.{
  World, compress, rotation_path, path_0, do_rotate_log_file, write_to_log_file,
}
use pmlogdaemon.Rotation.Append.{
  Appended, base_of, write_to_log_file-Appended, write_to_log_file-rotated,
}
use pmlogdaemon.Rotation.Cleanup.{kill_rotations, kill_rotations-gone}
use pmlogdaemon.Rotation.Names.{slot}
use pmlogdaemon.Rotation.Shift.{shifted, do_rotate_log_file-shifted}
use pmlogdaemon.Rotation.Write.{Returned, write_to_log_file-returns}
use pmlogdaemon.Tests.Disks.{disk, disk-Writes, disk-Renames, disk-Removes}

-- A log of at most 8 bytes, with two rotations.
abbrev pub log : LogFile
log = record { output_name = codes "out"; path = codes "/log"; max_size = pos 8; rotations = pos 2 }

-- The log holds 6 bytes, and its first rotated file is there.
abbrev pub start : World disk
start = record {
  disk = record {
    at = λ j.
        if str_eq j (codes "/log")
        then some (codes "first\n")
        else if str_eq j (codes "/log.0.gz")
        then some (codes "old")
        else none;
    left = λ fd. [];
  };
  tasks = [];
  subscriptions = pos 0;
  replies = [];
}

short : 0 < length (codes "a\n")
short = omega arith

write_to_log_file-Appended_example :
    (w' : World disk) × (write_to_log_file disk log (codes "a\n") start ≡ some (0, w'))
    × Appended disk log (codes "a\n") (base_of disk log start) start w'
write_to_log_file-Appended_example =
    write_to_log_file-Appended disk disk-Writes log (codes "a\n") start short refl

write_to_log_file-rotated_example :
    (w' : World disk) × (write_to_log_file disk log (codes "second\n") start ≡ some (0, w'))
    × (disk.contents w'.disk (codes "/log") ≡ some (codes "second\n"))
    × (disk.contents w'.disk (path_0 (codes "/log")) ≡ some (codes "first\n"))
    × ((k : ℕ)
        → k ≤ 1
        → disk.contents w'.disk (slot (codes "/log") k)
          ≡ shifted (λ i. disk.contents start.disk (slot (codes "/log") i)) 1 k)
    × (w'.tasks ≡ start.tasks ++ compress (path_0 (codes "/log")) ∷ [])
write_to_log_file-rotated_example =
    write_to_log_file-rotated disk disk-Writes log 1 (codes "second\n") (codes "first\n") start
      disk-Renames (omega arith) (omega arith) refl refl refl refl

do_rotate_log_file-shifted_example :
    (w' : World disk) × (do_rotate_log_file disk log true start ≡ some (true, w'))
    × ((k : ℕ)
        → k ≤ 1
        → disk.contents w'.disk (slot (codes "/log") k)
          ≡ shifted (λ i. disk.contents start.disk (slot (codes "/log") i)) 1 k)
    × (disk.contents w'.disk (path_0 (codes "/log")) ≡ some (codes "first\n"))
    × (disk.contents w'.disk (codes "/log") ≡ none)
    × ((j : Bytes)
        → ((k : ℕ) → k ≤ 1 → str_eq (slot (codes "/log") k) j ≡ false)
        → str_eq (codes "/log") j ≡ false
        → str_eq (path_0 (codes "/log")) j ≡ false
        → disk.contents w'.disk j ≡ disk.contents start.disk j)
    × (w'.tasks ≡ start.tasks ++ compress (path_0 (codes "/log")) ∷ [])
do_rotate_log_file-shifted_example =
    do_rotate_log_file-shifted disk disk-Renames log 1 start (codes "first\n") (omega arith) refl
      refl refl

write_to_log_file-returns_example : Returned (write_to_log_file disk log (codes "second\n") start)
write_to_log_file-returns_example = write_to_log_file-returns disk log (codes "second\n") start

kill_rotations-gone_example :
    (disk.contents (kill_rotations disk log (pos 0) start.disk) (codes "/log") ≡ none)
    × ((k : ℕ)
        → k < 19
        → disk.contents
            (kill_rotations disk log (pos 0) start.disk)
            (rotation_path (codes "/log") (pos k))
          ≡ none)
    × (disk.contents
          (kill_rotations disk log (pos 0) start.disk)
          (rotation_path (codes "/log") (pos 19))
        ≡ disk.contents start.disk (rotation_path (codes "/log") (pos 19)))
kill_rotations-gone_example = kill_rotations-gone disk log start.disk disk-Removes
