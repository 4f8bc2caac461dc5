-- ===== src/Store/DiskTests.antt =====
-- The disk-backed store at a small disk (src/integrations/strategy_store.py).
use mqs_backtest_visualizer.Prelude.{◌≡◌, refl, true, false, [], ◌∷◌, ok}
use mqs_backtest_visualizer.Prelude.Text.{codes}
use mqs_backtest_visualizer.Store.Names.{key_segments, object_name}
use mqs_backtest_visualizer.Store.Bucket.{put}
use mqs_backtest_visualizer.Store.Disk.{Disk, put_file, exists_directory, delete_directory}
use mqs_backtest_visualizer.Store.Alike.{raises, SameFiles, ReadAlike, put-ReadAlike}
use mqs_backtest_visualizer.Store.Tests.{
  shelf, on_shelf, shelf-Serves, example_key, example_address,
}

abbrev empty_disk : Disk
empty_disk = record { directories = []; files = [] }

abbrev one_file : Disk
one_file = record {
  directories =
      (codes "a" ∷ codes "b" ∷ codes "c" ∷ [])
      ∷ (codes "a" ∷ codes "b" ∷ [])
      ∷ (codes "a" ∷ [])
      ∷ [];
  files = ((codes "a" ∷ codes "b" ∷ codes "c" ∷ codes "f" ∷ []), codes "x") ∷ [];
}

-- A key two levels above one that was deleted still exists, without a file.
directory_left_behind :
    exists_directory (delete_directory one_file (codes "a/b/c")).0 (codes "a") ≡ ok true
unfolding exists_directory delete_directory key_segments object_name
directory_left_behind = refl

nothing_on_disk : SameFiles shelf on_shelf shelf-Serves [] empty_disk []
nothing_on_disk = λ key filename b. refl

put_is_quiet : raises (put_file empty_disk example_key (codes "strategy.py") (codes "x")).1 ≡ false
unfolding put_file key_segments object_name
put_is_quiet = refl

put-ReadAlike_example :
    SameFiles shelf on_shelf shelf-Serves []
      (put_file empty_disk example_key (codes "strategy.py") (codes "x")).0
      (put shelf [] [] example_key (codes "strategy.py") (codes "x")).0
    × ReadAlike shelf on_shelf shelf-Serves []
        (put_file empty_disk example_key (codes "strategy.py") (codes "x")).0
        (put shelf [] [] example_key (codes "strategy.py") (codes "x")).0
put-ReadAlike_example =
    put-ReadAlike shelf on_shelf shelf-Serves [] empty_disk [] example_key (codes "strategy.py")
      (codes "x") example_address nothing_on_disk put_is_quiet
