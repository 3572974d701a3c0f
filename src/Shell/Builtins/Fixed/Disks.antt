-- ===== src/Shell/Builtins/Fixed/Disks.antt =====
-- The commands on disks and mounts.
use mira_os.Base.{some, pos, codes}
use mira_os.Shell.Exec.{Handler}
use mira_os.Shell.Builtins.{draw}
use mira_os.Shell.Builtins.Fixed.{refuse}

unfoldable pub builtin_umount : Handler
unfolding refuse
builtin_umount env cmd = refuse (codes "umount: operation not supported") env cmd

unfoldable pub builtin_mount : Handler
unfolding refuse
builtin_mount env cmd = refuse (codes "mount: operation not supported") env cmd

unfoldable pub builtin_df : Handler
builtin_df env cmd = some (
  pos 0,
  draw (codes "ramfs          1M    128K  896K   12%\n")
      (draw (codes "Filesystem     Size  Used  Avail  Use%\n") env),
)

unfoldable pub builtin_lsblk : Handler
builtin_lsblk env cmd = some (
  pos 0,
  draw (codes "sr0     11:0    1  1024M  0 rom  \n")
      (draw (codes "NAME   MAJ:MIN RM  SIZE RO TYPE MOUNTPOINT\n") env),
)

unfoldable pub builtin_fdisk : Handler
unfolding refuse
builtin_fdisk env cmd = refuse (codes "fdisk: unsupported in this build") env cmd

unfoldable pub builtin_partprobe : Handler
builtin_partprobe env cmd = some (pos 0, env)

unfoldable pub builtin_mkfs : Handler
unfolding refuse
builtin_mkfs env cmd = refuse (codes "mkfs: unsupported in this build") env cmd

unfoldable pub builtin_fsck : Handler
unfolding refuse
builtin_fsck env cmd = refuse (codes "fsck: unsupported in this build") env cmd

unfoldable pub builtin_dd : Handler
unfolding refuse
builtin_dd env cmd = refuse (codes "dd: unsupported in this build") env cmd

unfoldable pub builtin_mkswap : Handler
unfolding refuse
builtin_mkswap env cmd = refuse (codes "mkswap: unsupported in this build") env cmd

unfoldable pub builtin_swapon : Handler
unfolding refuse
builtin_swapon env cmd = refuse (codes "swapon: unsupported in this build") env cmd

unfoldable pub builtin_swapoff : Handler
unfolding refuse
builtin_swapoff env cmd = refuse (codes "swapoff: unsupported in this build") env cmd
